-- ===== src/Pancli/Options.antt =====
-- getOptionalParameters of pkg/pancli/pancli_ssh.go: the options of the command `volume create`.
pub mod Laws
pub mod Complete
use Prim.Native.String
use panfs_container_storage.Base.{
  String, ◌<>◌, code, Bool, true, false, not, ◌&&◌, ◌||◌, Option, none, some, List, [], ◌∷◌, ◌++◌,
  ◌==◌, str_eq, if◌then◌else◌,
}
use panfs_container_storage.Base.Texts.{codes, contains}
use panfs_container_storage.Base.GoMap.{Entries}
use panfs_container_storage.Base.Decimal.{parse_int}
use panfs_container_storage.Utils.Context.{get_sc_key, get_fmt}
use panfs_container_storage.Utils.Convert.{bytes_to_gb, format_2}

-- fmt.Sprintf of a format with one verb, %s or %v, and a string.
unfoldable pub sprintf : String → String → String
sprintf String.[] v = String.[]
sprintf (String.◌∷◌ c String.[]) v = String.◌∷◌ c String.[]
sprintf (String.◌∷◌ c (String.◌∷◌ d s)) v =
    let rest = sprintf (String.◌∷◌ d s) v in
    if code c == b'%' && (code d == b's' || code d == b'v') then v <> s else String.◌∷◌ c rest

-- What is appended for a parameter that was not skipped.
unfoldable pub render : String → String → Option String
unfolding sprintf
render key_param value =
    let format = get_fmt key_param in if str_eq format "" then none else some (sprintf format value)

-- The encryption parameter, under whatever prefix, with another value than "on".
unfoldable pub is_skipped_encryption : String → String → Bool
is_skipped_encryption key value =
    contains (codes key) (codes "encryption")
    && str_eq (get_sc_key key) (get_sc_key "encryption")
    && not (str_eq value "on")

-- One round of the loop: the option, or `none` at a `continue`.
unfoldable pub option_of : String × String → Option String
unfolding render is_skipped_encryption
option_of (key, value) =
    let key_param = get_sc_key key in
    if str_eq value ""
    then none
    else if is_skipped_encryption key value
    then none
    else if not (str_eq key_param key)
    then none
    else if str_eq key_param (get_sc_key "soft") || str_eq key_param (get_sc_key "hard")
    then elim (parse_int value) [
      | none ↦ none
      | some size_bytes ↦ render key_param (format_2 (bytes_to_gb size_bytes))
    ]
    else render key_param value

append_option : List String → Option String → List String
append_option opts none = opts
append_option opts (some o) = opts ++ (o ∷ [])

-- The loop, over the map's entries in the order in which Go walks through them.
unfoldable pub collect_options : List String → Entries → List String
unfolding append_option
collect_options opts [] = opts
collect_options opts (entry ∷ params) =
    collect_options (append_option opts (option_of entry)) params

unfoldable pub get_optional_parameters : Entries → List String
unfolding collect_options
get_optional_parameters params = collect_options [] params
