-- ===== src/Ipc/Transport/Reassembly.antt =====
-- However the stream is cut into calls of `recvmsg`, a connection yields the frames that were sent.
use native.Mathlib.Decide.{dec_lt}
use vpn_passthrough.Prelude.{
  ℕ, zero, suc, ◌≤◌, ◌<◌, ◌≡◌, ◌⊎◌, refl, sym, ap, ◌∙◌, Option, none, some, List, [], ◌∷◌, ◌++◌,
  false, ltb, ge→ltb, map, inl, inr, length, concat, append_assoc, append-nil, append_split, All,
  arith,
}
use vpn_passthrough.Ipc.Framing.{Bytes, Framing, IsLawful}
use vpn_passthrough.Ipc.Transport.{
  Recv, message, blocked, reset, failed, Received, got, max_buffer_size, attempt, receive,
  eof_error, os_error, receive_frame, iterate, returned,
}

-- The bytes that the calls bring until the stream ends.
abbrev pub bytes_of : List Recv → Bytes
bytes_of [] = []
bytes_of (message [] sent ∷ calls) = []
bytes_of (message (b ∷ bs) sent ∷ calls) = (b ∷ bs) ++ bytes_of calls
bytes_of (blocked ∷ calls) = bytes_of calls
bytes_of (reset ∷ calls) = []
bytes_of (failed ∷ calls) = []

-- The descriptors that come with those bytes.
abbrev pub fds_of : List Recv → List ℕ
fds_of [] = []
fds_of (message [] sent ∷ calls) = []
fds_of (message (b ∷ bs) sent ∷ calls) = sent ++ fds_of calls
fds_of (blocked ∷ calls) = fds_of calls
fds_of (reset ∷ calls) = []
fds_of (failed ∷ calls) = []

-- The peer closes the stream or the stream breaks, sooner or later.
abbrev pub Ends : List Recv → Type 0
Ends [] = ⊥
Ends (message [] sent ∷ calls) = Unit
Ends (message (b ∷ bs) sent ∷ calls) = Ends calls
Ends (blocked ∷ calls) = Ends calls
Ends (reset ∷ calls) = Unit
Ends (failed ∷ calls) = Unit

module _ (F : Framing) (Plain : Bytes → Type 0) (lawful : IsLawful F Plain) where
  -- A content that the framing can carry, in a frame that fits the buffer.
  abbrev pub Fits : Bytes → Type 0
  Fits d = Plain d × (length (F.delimit d) ≤ max_buffer_size)

  -- The buffer at the start of the next frame: it holds the frame, or less than the frame.
  extract_next :
      (buffer more d rest : Bytes)
      → Fits d
      → buffer ++ more ≡ F.delimit d ++ rest
      → (p : Option Bytes × Bytes) → F.extract buffer ≡ p
      → ((r : Bytes) × (F.extract buffer ≡ (some d, r)) × (r ++ more ≡ rest))
        ⊎ ((F.extract buffer ≡ (none, buffer)) × (length buffer < length (F.delimit d)))
  extract_next buffer more d rest fits e (some d', r) p =
      let q = rw e at (lawful.extract-append buffer more d' r p) in
      let s = lawful.extract-delimit d rest fits.0 in inl (r, cc, cc)
  extract_next buffer more d rest fits e (none, r) p =
      let q = lawful.extract-none buffer r p in inr (cc, short)
    where
      whole : (t : Bytes) → buffer ≡ F.delimit d ++ t → ⊥
      whole t s = cc (lawful.extract-delimit d t fits.0, ap F.extract s)

      short : length buffer < length (F.delimit d)
      short = elim (dec_lt (length buffer) (length (F.delimit d))) [
        | yes h ↦ h
        | no h ↦
            let (t, s) = append_split buffer more (F.delimit d) rest e (omega arith) in
            absurd (whole t s)
      ]

  -- What one frame leaves: its content, and of the rest of the stream no byte and no descriptor
  -- less.
  abbrev Yields : Bytes → List ℕ → List Recv → Bytes → Bytes → Received → Type 0
  Yields buffer fds calls d rest r =
      (sent : List ℕ) × (later : List Recv) × (left : Bytes) × (r
        ≡ got (record { content = d; fds = sent }) left later)
      × (left ++ bytes_of later ≡ rest)
      × (sent ++ fds_of later ≡ fds ++ fds_of calls)
      × Ends later

  -- No frame is left unfinished when the stream ends.
  not_at_end :
      (d rest buffer : Bytes)
      → Fits d
      → F.extract buffer ≡ (none, buffer)
      → buffer ++ [] ≡ F.delimit d ++ rest
      → ⊥
  not_at_end d rest buffer fits empty e =
      let whole : buffer ≡ F.delimit d ++ rest = rw append-nil at e in
      cc (lawful.extract-delimit d rest fits.0, ap F.extract whole)

  attempt-Yields :
      (d rest buffer : Bytes) (fds : List ℕ) (calls : List Recv) (more : Received)
      → Fits d
      → Ends calls
      → buffer ++ bytes_of calls ≡ F.delimit d ++ rest
      → (F.extract buffer ≡ (none, buffer) → Yields buffer fds calls d rest more)
      → Yields buffer fds calls d rest (attempt F buffer fds calls more)
  unfolding attempt
  attempt-Yields d rest buffer fds calls more fits ends e next =
      elim (extract_next buffer (bytes_of calls) d rest fits e (F.extract buffer) refl) [
        | inl (r, found, left) ↦ (fds, calls, r, rw (found, attempt), left, refl, ends)
        | inr (empty, short) ↦
            let test : ltb max_buffer_size (length buffer) ≡ false = ge→ltb _ _ (omega arith) in
            rw (empty, attempt) (rw test (next empty))
      ]

  receive-Yields :
      (d rest buffer : Bytes) (fds : List ℕ) (calls : List Recv)
      → Fits d
      → F.extract buffer ≡ (none, buffer)
      → Ends calls
      → buffer ++ bytes_of calls ≡ F.delimit d ++ rest
      → Yields buffer fds calls d rest (receive F buffer fds calls)
  unfolding receive
  receive-Yields d rest buffer fds [] fits empty ends e = absurd ends
  receive-Yields d rest buffer fds (blocked ∷ calls) fits empty ends e =
      receive-Yields d rest buffer fds calls fits empty ends e
  receive-Yields d rest buffer fds (message (b ∷ bs) sent ∷ calls) fits empty ends e =
      let e' : (buffer ++ b ∷ bs) ++ bytes_of calls ≡ F.delimit d ++ rest =
        append_assoc buffer (b ∷ bs) (bytes_of calls) ∙ e in
      let (gathered, later, left, p, q, r, s) =
        attempt-Yields d rest (buffer ++ b ∷ bs) (fds ++ sent) calls
          (receive F (buffer ++ b ∷ bs) (fds ++ sent) calls) fits ends e'
          (λ empty'.
            receive-Yields d rest (buffer ++ b ∷ bs) (fds ++ sent) calls fits empty' ends e') in
      (gathered, later, left, p, q, r ∙ append_assoc fds sent (fds_of calls), s)
  receive-Yields d rest buffer fds (c ∷ calls) fits empty ends e =
      absurd (not_at_end d rest buffer fits empty e)

  receive_frame-Yields :
      (d rest buffer : Bytes) (calls : List Recv)
      → Fits d
      → Ends calls
      → buffer ++ bytes_of calls ≡ F.delimit d ++ rest
      → Yields buffer [] calls d rest (receive_frame F buffer calls)
  unfolding receive_frame
  receive_frame-Yields d rest buffer calls fits ends e =
      attempt-Yields d rest buffer [] calls (receive F buffer [] calls) fits ends e
        (λ empty. receive-Yields d rest buffer [] calls fits empty ends e)

  -- What a stream with no byte left ends in.
  receive_at_end :
      (calls : List Recv)
      → Ends calls
      → bytes_of calls ≡ []
      → (fds_of calls ≡ [])
        × ((receive F [] [] calls ≡ eof_error) ⊎ (receive F [] [] calls ≡ os_error))
  unfolding receive
  receive_at_end [] ends e = absurd ends
  receive_at_end (blocked ∷ calls) ends e = receive_at_end calls ends e
  receive_at_end (message [] sent ∷ calls) ends e = (refl, inl refl)
  receive_at_end (message (b ∷ bs) sent ∷ calls) ends e = cc
  receive_at_end (reset ∷ calls) ends e = (refl, inl refl)
  receive_at_end (failed ∷ calls) ends e = (refl, inr refl)

  receive_frame_at_end :
      (calls : List Recv)
      → (receive F [] [] calls ≡ eof_error) ⊎ (receive F [] [] calls ≡ os_error)
      → (receive_frame F [] calls ≡ eof_error) ⊎ (receive_frame F [] calls ≡ os_error)
  unfolding receive_frame attempt
  receive_frame_at_end calls (inl p) = inl (rw (lawful.extract-empty, attempt) p)
  receive_frame_at_end calls (inr p) = inr (rw (lawful.extract-empty, attempt) p)

  -- If the bytes that arrive are delimited contents that fit, one after the other, and the stream
  -- then ends, the iteration yields these contents in order and all descriptors in order, and
  -- returns; this takes one round more than there are frames.
  pub iterate-frames :
      (ds : List Bytes) (buffer : Bytes) (calls : List Recv) (fuel : ℕ)
      → All Fits ds
      → Ends calls
      → buffer ++ bytes_of calls ≡ concat (map F.delimit ds)
      → length ds < fuel
      → let (frames, ending) = iterate F fuel buffer calls in
        (map (λ f. f.content) frames ≡ ds)
        × (concat (map (λ f. f.fds) frames) ≡ fds_of calls)
        × (ending ≡ returned)
  unfolding iterate
  iterate-frames ds buffer calls zero fits ends e h = absurd (omega arith)
  iterate-frames [] [] calls (suc fuel) fits ends e h =
      let (no_fds, last) = receive_at_end calls ends e in
      elim (receive_frame_at_end calls last) [
        | inl p ↦ rw (p, iterate) (refl, sym no_fds, refl)
        | inr p ↦ rw (p, iterate) (refl, sym no_fds, refl)
      ]
  iterate-frames [] (b ∷ buffer) calls (suc fuel) fits ends e h = cc
  iterate-frames (d ∷ ds) buffer calls (suc fuel) fits ends e h =
      let (sent, later, left, p, q, r, s) =
        receive_frame-Yields d (concat (map F.delimit ds)) buffer calls fits.0 ends e in
      let (contents, gathered, ending) =
        iterate-frames ds left later fuel fits.1 s q (omega arith) in
      rw (p, iterate) (ap (λ cs. d ∷ cs) contents, ap (λ fs. sent ++ fs) gathered ∙ r, ending)
