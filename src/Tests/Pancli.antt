-- ===== src/Tests/Pancli.antt =====
-- The clients of PanFS: connections, outputs, options, listings, and the client of the sanity mode.
use mathlib.Core.List.{Mem, mem-cons_self, flat_map}
use panfs_container_storage.Pancli.Ssh.Dialled.{IsDialled, start, run_command-IsDialled}
use panfs_container_storage.Pancli.Ssh.Words.{split, run_command-words}
use panfs_container_storage.Pancli.Ssh.Safety.{get_ssh_connection-shared}
use panfs_container_storage.Utils.Parser.{Volume, VolumeList, marshal_volume_to_pas_xml}
use panfs_container_storage.Pancli.Client.{Unmarshal, get_volume}
use panfs_container_storage.Pancli.Client.Listing.{
  listing_of, IsReadBack, IsBare, get_volume-marshalled,
}
use panfs_container_storage.Base.{
  String, ◌<>◌, ◌≡◌, ◌≢◌, ◌↔◌, refl, ◌⊎◌, inl, inr, none, some, false, true, Bool, List, [], ◌∷◌,
  Option, str_eq, eq_iff, if◌then◌else◌,
}
use panfs_container_storage.Base.Texts.{Text, codes}
use panfs_container_storage.Base.GoMap.{Entries, GoMap, lookup, find}
use panfs_container_storage.Base.Results.{already_exist, not_found, plain, Result, ok, err, panic}
use panfs_container_storage.Utils.Context.{get_sc_key}
use panfs_container_storage.Pancli.Errors.{parse_error_string}
use panfs_container_storage.Pancli.Errors.Classify.{
  wraps_of, Exists, Missing, Succeeds, parse_error_string-classes,
}
use panfs_container_storage.Pancli.Options.{sprintf, get_optional_parameters}
use panfs_container_storage.Pancli.Options.Laws.{Gives, get_optional_parameters-Gives}
use panfs_container_storage.Utils.Context.Keys.{IsSupported}
use panfs_container_storage.Pancli.Ssh.{Ssh, Clients, attempt, get_ssh_connection}
use panfs_container_storage.Pancli.Ssh.{run_command}
use panfs_container_storage.Base.Texts.{join}
use panfs_container_storage.Pancli.Ssh.Cache.{get_ssh_connection_poisoned}
use panfs_container_storage.Pancli.Fake.{new_volume}
use panfs_container_storage.Tests.Inputs.{runner, secrets}

-- A realm that answers every dial, and one that is down.
abbrev up : Ssh (Unit {0}) (Unit {0})
up = record {
  answers_ping = λ client. true;
  parse_private_key = λ key. ok tt;
  parse_private_key_with_passphrase = λ key passphrase. ok tt;
  dial = λ address config. ok tt;
  new_session = λ client. none;
  combined_output = λ client cmd. ok "";
}

abbrev down : Ssh (Unit {0}) (Unit {0})
down = record up { answers_ping = λ client. false; dial = λ address config. err (plain []) }

abbrev no_clients : Clients (Unit {0})
no_clients = []

abbrev one_client : Clients (Unit {0})
one_client = ("10.0.0.1", some tt) ∷ []

connected : get_ssh_connection up secrets no_clients ≡ (ok tt, one_client)
unfolding get_ssh_connection
connected = refl

found_realm : find "realm_ip" secrets ≡ some "10.0.0.1"
unfolding find
found_realm = refl

listed_client : lookup "10.0.0.1" one_client ≡ some (some tt)
unfolding lookup
listed_client = refl

attempt-down : attempt down "10.0.0.1" secrets ≡ err (plain [])
unfolding attempt
attempt-down = refl

get_ssh_connection_poisoned_example :
    ((get_ssh_connection down secrets one_client).0 ≡ err (plain []))
    × ((later : Ssh (Unit {0}) (Unit {0})) (secrets' : GoMap)
        → find "realm_ip" secrets' ≡ some "10.0.0.1"
        → get_ssh_connection later secrets' (get_ssh_connection down secrets one_client).1
          ≡ (panic, (get_ssh_connection down secrets one_client).1))
get_ssh_connection_poisoned_example =
    get_ssh_connection_poisoned down secrets "10.0.0.1" one_client tt (plain []) found_realm
      listed_client refl attempt-down

abbrev output : Text
output = codes "Volume pvc-1 Already Exists"

parse_error_string-classes_example :
    ((wraps_of (parse_error_string output) ≡ some already_exist) ↔ Exists output)
    × ((wraps_of (parse_error_string output) ≡ some not_found) ↔ Missing output)
    × ((wraps_of (parse_error_string output) ≡ none) ↔ Succeeds output)
parse_error_string-classes_example = parse_error_string-classes output

abbrev options : Entries
options = ("panfs.csi.vdura.com/user", "root") ∷ ("panfs.csi.vdura.com/soft", "1073741824") ∷ []

user-IsSupported : IsSupported "panfs.csi.vdura.com/user" "user \"%s\""
unfolding lookup panfs_container_storage.Utils.Context.volume_parameters
user-IsSupported = record { short = "user"; listed = refl; spelled = refl }

given : ◌≢◌ {A = String} "root" ""
given e = cc

not_soft : "panfs.csi.vdura.com/user" ≢ get_sc_key "soft"
unfolding get_sc_key
not_soft e = absurd (cc ((eq_iff "panfs.csi.vdura.com/user" "panfs.csi.vdura.com/soft").1 e))

not_hard : "panfs.csi.vdura.com/user" ≢ get_sc_key "hard"
unfolding get_sc_key
not_hard e = absurd (cc ((eq_iff "panfs.csi.vdura.com/user" "panfs.csi.vdura.com/hard").1 e))

not_encryption : "panfs.csi.vdura.com/user" ≢ get_sc_key "encryption"
unfolding get_sc_key
not_encryption e =
    absurd (cc ((eq_iff "panfs.csi.vdura.com/user" "panfs.csi.vdura.com/encryption").1 e))

first_listed : Mem ("panfs.csi.vdura.com/user", "root") options
first_listed = mem-cons_self

user_listed : Mem "user \"root\"" (get_optional_parameters options)
unfolding get_optional_parameters panfs_container_storage.Pancli.Options.option_of
    panfs_container_storage.Base.Texts.contains get_sc_key
    panfs_container_storage.Base.Decimal.parse_int panfs_container_storage.Utils.Context.get_fmt
user_listed = mem-cons_self

get_optional_parameters-Gives_example : ∥ (
    (entry : String × String) × Mem entry options
    × Gives entry.0 entry.1 "user \"root\""
    × (entry.0 ≡ get_sc_key "encryption" → entry.1 ≡ "on")) ∥₁
get_optional_parameters-Gives_example =
    get_optional_parameters-Gives options "user \"root\"" user_listed

abbrev printing : Ssh (Unit {0}) (Unit {0})
printing = record up { combined_output = λ client cmd. ok "Volume deleted successfully" }

ran :
    run_command printing secrets ("volume" ∷ "delete" ∷ []) no_clients
    ≡ (ok "Volume deleted successfully", one_client)
unfolding run_command parse_error_string panfs_container_storage.Base.Texts.to_lower
ran = refl

run_command-words_example :
    (client : Unit {0}) × (get_ssh_connection printing secrets no_clients ≡ (ok client, one_client))
    × ((cmd : String) × (printing.combined_output client cmd ≡ ok "Volume deleted successfully")
        × (split cmd ≡ flat_map split ("volume" ∷ "delete" ∷ [])))
    × Succeeds (codes "Volume deleted successfully")
run_command-words_example =
    run_command-words printing secrets ("volume" ∷ "delete" ∷ []) no_clients one_client
      "Volume deleted successfully" (λ h. cc) ran

-- The credentials of another user, for the same realm.
abbrev stranger : GoMap
stranger = some (("realm_ip", "10.0.0.1") ∷ ("user", "guest") ∷ ("password", "wrong") ∷ [])

stranger_realm : find "realm_ip" stranger ≡ some "10.0.0.1"
unfolding find
stranger_realm = refl

get_ssh_connection-shared_example : get_ssh_connection up stranger one_client ≡ (ok tt, one_client)
get_ssh_connection-shared_example =
    get_ssh_connection-shared up secrets "10.0.0.1" no_clients one_client tt found_realm connected
      up stranger refl stranger_realm

-- A volume whose name has a slash at its head, and a codec that knows its listing.
abbrev named : Volume
named = record (new_volume "1" "pvc-1" []) { name = "/pvc-1" }

abbrev encode : VolumeList → Result String
encode list = ok ""

abbrev decoded : Unmarshal
decoded out = ok (listing_of named)

named-IsReadBack : IsReadBack encode decoded (listing_of named)
named-IsReadBack out h = refl

encoded : marshal_volume_to_pas_xml encode named ≡ ok ""
unfolding marshal_volume_to_pas_xml
encoded = refl

get_volume-marshalled_example :
    (bare : String) × IsBare "/pvc-1" bare
    × (get_volume runner decoded "pvc-1" secrets tt ≡ (ok (record named { name = bare }), tt))
get_volume-marshalled_example =
    get_volume-marshalled runner encode decoded named named-IsReadBack "pvc-1" "" secrets tt tt
      encoded refl

run_command-IsDialled_example :
    (realm : String) × (find "realm_ip" secrets ≡ some realm)
    × ((client : Unit {0}) × IsDialled (Unit {0}) ((printing, secrets) ∷ []) realm client
        × (printing.combined_output client (join ("volume" ∷ "delete" ∷ []) " ")
            ≡ ok "Volume deleted successfully"))
run_command-IsDialled_example =
    run_command-IsDialled (Unit {0}) [] printing secrets ("volume" ∷ "delete" ∷ []) no_clients
      one_client "Volume deleted successfully" start ran
