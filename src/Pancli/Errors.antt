-- ===== src/Pancli/Errors.antt =====
-- pkg/pancli/errors.go: the output of a command, read as an error or as a success.
pub mod Clean
pub mod Classify
use panfs_container_storage.Base.{
  ℕ, String, Bool, true, false, ◌||◌, Option, none, some, [], ◌∷◌, ◌++◌, if◌then◌else◌, is_empty,
}
use panfs_container_storage.Base.Texts.{Text, codes, contains, to_lower}
use panfs_container_storage.Base.Results.{
  Sentinel, already_exist, not_found, invalid_argument, unavailable, internal, Error,
}
use Clean.{clean}

-- What the sentinel errors of the file say.
unfoldable pub sentinel_text : Sentinel → Text
sentinel_text Sentinel.not_implemented = codes "operation is not implemented"
sentinel_text Sentinel.already_exist = codes "volume already exists"
sentinel_text Sentinel.not_found = codes "requested entity was not found"
sentinel_text Sentinel.invalid_argument = codes "an invalid argument was specified"
sentinel_text Sentinel.unauthenticated =
    codes "request does not have valid authentication credentials for the operation"
sentinel_text Sentinel.unavailable = codes "connection was refused or terminated"
sentinel_text Sentinel.internal = codes "internal server error"
sentinel_text Sentinel.other = []

-- fmt.Errorf("%w: %s", sentinel, text)
abbrev pub wrapped : Sentinel → Text → Error
wrapped s text = record { wraps = s; message = sentinel_text s ++ codes ": " ++ text }

-- The error itself, as it is returned unwrapped.
abbrev pub sentinel : Sentinel → Error
sentinel s = record { wraps = s; message = sentinel_text s }

-- The message of the branch that cleans the output.
abbrev cleaned : Text → Text
cleaned output = let text = clean output in if is_empty text then output else text

unfoldable pub parse_error_string : Text → Option Error
unfolding contains
parse_error_string output =
    let s = to_lower output in
    if contains s (codes "already exists")
    then some (wrapped already_exist output)
    else if contains s (codes "no volume with name")
    then some (wrapped not_found output)
    else if contains s (codes "successfully")
    then none
    else if contains s (codes "<volumes>")
    then none
    else if contains s (codes "do not exist")
    then some (wrapped not_found output)
    else if contains s (codes "must be one of") || contains s (codes "invalid string")
    then some (wrapped invalid_argument (cleaned output))
    else if contains s (codes "should be")
    then some (wrapped invalid_argument output)
    else if contains s (codes "status 255")
    then some (wrapped unavailable output)
    else some (wrapped internal output)
