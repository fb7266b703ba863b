-- ===== src/Service/Backends.antt =====
-- `_resolve_backend` of service.py.
use vpn_passthrough.Prelude.{
  String, string_eq, ◌==◌, Option, none, some, List, [], ◌∷◌, if◌then◌else◌,
}
use vpn_passthrough.Prelude.Dict.{Dict}
use vpn_passthrough.Messages.{BackendInfo}
use vpn_passthrough.Service.State.{
  Host, Result, ok, err, backend_required, backend_not_found, backend_not_installed,
}

-- `backend_name or self._default_backend_name`: an empty name counts as none.
unfoldable pub chosen : Option String → Option String → Option String
chosen none default = default
chosen (some name) default = if name == "" then default else some name

unfoldable pub find_backend : String → List BackendInfo → Option BackendInfo
find_backend name [] = none
find_backend name (b ∷ bs) = if b.name == name then some b else find_backend name bs

-- `get_backend`, of which only the type's name is kept.
unfoldable pub get_backend :
    Host → String → Dict String String → Result (String × Dict String String)
get_backend host type credentials =
    if host.installed type then ok (type, credentials) else err backend_not_installed

-- A backend type and the credentials for it.
unfoldable pub resolve_backend :
    Host → List BackendInfo → Option String → Option String → Result (String × Dict String String)
unfolding chosen find_backend get_backend
resolve_backend host backends default backend_name = elim (chosen backend_name default) [
  | none ↦ err backend_required
  | some name ↦ elim (find_backend name backends) [
    | none ↦ if name == "dummy" then get_backend host "dummy" [] else err backend_not_found
    | some info ↦ get_backend host info.type info.credentials
  ]
]
