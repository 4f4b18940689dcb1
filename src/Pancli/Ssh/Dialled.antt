-- ===== src/Pancli/Ssh/Dialled.antt =====
-- Which realm a cached connection of pkg/pancli/pancli_ssh.go leads to, over any run of calls.
use panfs_container_storage.Base.{
  String, ◌<>◌, ◌≡◌, refl, sym, ◌∙◌, ap, inl, inr, ◌&&◌, none, some, List, [], ◌∷◌, ◌++◌, arith,
  str_eq, Option-cases, Bool-cases,
}
use panfs_container_storage.Base.Texts.{codes, join, str_eq-cases}
use panfs_container_storage.Base.GoMap.{
  lookup, insert, GoMap, find, value_at, lookup-insert_self, lookup-insert_ne,
}
use panfs_container_storage.Base.Results.{plain, Result, ok, err, panic}
use panfs_container_storage.Utils.Context.Secret
use panfs_container_storage.Pancli.Client.Laws.{Result-cases}
use panfs_container_storage.Pancli.Ssh.{
  Ssh, Config, Clients, key_auth, password_auth, attempt, remember, connect, get_ssh_connection,
  run_command,
}
use panfs_container_storage.Pancli.Ssh.Run.{run_command-Succeeds}
use panfs_container_storage.Pancli.Ssh.Cache.{
  get_ssh_connection_nil, get_ssh_connection_alive, get_ssh_connection_dead,
  get_ssh_connection_uncached, get_ssh_connection-Stores,
}

-- The calls of RunCommand so far, the last one first: what the SSH library and the realms answered
-- during it, and its secrets.
abbrev pub History : Type 0 → Type 0 → Type 0
History Client Signer = List (Ssh Client Signer × GoMap)

module _ {Client : Type 0} (Signer : Type 0) where
  pub data Made (ssh : Ssh Client Signer) (secrets : GoMap) : History Client Signer → Type 0 where
    last : {history : History Client Signer} → Made ssh secrets ((ssh, secrets) ∷ history)
    earlier :
        (call : Ssh Client Signer × GoMap) {history : History Client Signer}
        → Made ssh secrets history
        → Made ssh secrets (call ∷ history)

  -- A call of the history, whose secrets name the realm, has dialled the connection, to port 22 of
  -- the realm and as its user.
  pub record IsDialled (history : History Client Signer) (realm : String) (client : Client)
      : Type 0 where
    pub ssh : Ssh Client Signer
    pub secrets : GoMap
    pub config : Config Signer
    pub made : Made ssh secrets history
    pub named : find Secret.realm_address secrets ≡ some realm
    pub user : find Secret.username secrets ≡ some config.user
    pub dialled : ssh.dial (realm <> ":22") config ≡ ok client

  abbrev pub AllDialled : History Client Signer → Clients Client → Type 0
  AllDialled history clients =
      (realm : String) (client : Client)
      → lookup realm clients ≡ some (some client)
      → IsDialled history realm client

  IsDialled-later :
      (call : Ssh Client Signer × GoMap) (history : History Client Signer) (realm : String)
      (client : Client)
      → IsDialled history realm client
      → IsDialled (call ∷ history) realm client
  IsDialled-later call history realm client d = record {
    ssh = d.ssh;
    secrets = d.secrets;
    config = d.config;
    made = earlier call d.made;
    named = d.named;
    user = d.user;
    dialled = d.dialled;
  }

  attempt-IsDialled :
      (history : History Client Signer) (ssh : Ssh Client Signer) (realm : String) (secrets : GoMap)
      (client : Client)
      → find Secret.realm_address secrets ≡ some realm
      → attempt ssh realm secrets ≡ ok client
      → IsDialled ((ssh, secrets) ∷ history) realm client
  unfolding attempt
  attempt-IsDialled history ssh realm secrets client r h =
      let secret = value_at Secret.password secrets in
      let private_key = value_at Secret.private_key secrets in
      elim (Option-cases (find Secret.username secrets)) [
        | inl e ↦ absurd (ground arith)
        | inr (user, e) ↦ elim (Bool-cases (str_eq secret "" && str_eq private_key "")) [
          | inl t ↦ absurd (ground arith)
          | inr f ↦
              elim (Result-cases
                (key_auth ssh private_key (value_at Secret.private_key_passphrase secrets))) [
                  | inl (auth, k) ↦ record {
                    ssh = ssh;
                    secrets = secrets;
                    config = record { user = user; auth = auth ++ password_auth ssh secret };
                    made = last;
                    named = r;
                    user = e;
                    dialled = ground arith;
                  }
                  | inr (inl (x, k)) ↦ absurd (ground arith)
                  | inr (inr k) ↦ absurd (ground arith)
                ]
        ]
      ]

  remember-AllDialled :
      (history : History Client Signer) (ssh : Ssh Client Signer) (realm : String)
      (result : Result Client) (clients : Clients Client)
      → ((c : Client) → result ≡ ok c → IsDialled history realm c)
      → AllDialled history clients
      → AllDialled history (remember ssh realm result clients).1
  unfolding remember
  remember-AllDialled history ssh realm (err e) clients new all =
      λ other client h. all other client h
  remember-AllDialled history ssh realm panic clients new all = λ other client h. all other client h
  remember-AllDialled history ssh realm (ok c) clients new all = λ other client h.
      elim (str_eq-cases other realm) [
        | inl (_, same) ↦
            let stored : lookup other (insert realm (some c) clients) ≡ some (some c) =
              rw same (lookup-insert_self realm (some c) clients) in
            let one : c ≡ client = cc in rw (same, ← one) (new c refl)
        | inr (_, differ) ↦
            all other client (sym (lookup-insert_ne other realm (some c) clients differ) ∙ h)
      ]

  insert-nil-AllDialled :
      (history : History Client Signer) (realm : String) (clients : Clients Client)
      → AllDialled history clients
      → AllDialled history (insert realm none clients)
  insert-nil-AllDialled history realm clients all other client h = elim (str_eq-cases other realm) [
    | inl (_, same) ↦ absurd (cc (lookup-insert_self realm none clients))
    | inr (_, differ) ↦
        all other client (sym (lookup-insert_ne other realm none clients differ) ∙ h)
  ]

  connect-AllDialled :
      (history : History Client Signer) (ssh : Ssh Client Signer) (realm : String) (secrets : GoMap)
      (clients : Clients Client)
      → find Secret.realm_address secrets ≡ some realm
      → AllDialled ((ssh, secrets) ∷ history) clients
      → AllDialled ((ssh, secrets) ∷ history) (connect ssh realm secrets clients).1
  unfolding connect
  connect-AllDialled history ssh realm secrets clients r all =
      remember-AllDialled ((ssh, secrets) ∷ history) ssh realm (attempt ssh realm secrets) clients
        (λ c h. attempt-IsDialled history ssh realm secrets c r h) all

  get_ssh_connection_unnamed :
      (ssh : Ssh Client Signer) (secrets : GoMap) (clients : Clients Client)
      → find Secret.realm_address secrets ≡ none
      → get_ssh_connection ssh secrets clients
        ≡ (err (plain (codes "missing realm_ip in secrets")), clients)
  unfolding get_ssh_connection
  get_ssh_connection_unnamed ssh secrets clients e = ground arith

  get_ssh_connection-AllDialled :
      (history : History Client Signer) (ssh : Ssh Client Signer) (secrets : GoMap)
      (clients : Clients Client)
      → AllDialled history clients
      → AllDialled ((ssh, secrets) ∷ history) (get_ssh_connection ssh secrets clients).1
  get_ssh_connection-AllDialled history ssh secrets clients now =
      let all : AllDialled ((ssh, secrets) ∷ history) clients = λ realm client h.
        IsDialled-later (ssh, secrets) history realm client (now realm client h) in
      elim (Option-cases (find Secret.realm_address secrets)) [
        | inl n ↦ rw (get_ssh_connection_unnamed ssh secrets clients n) all
        | inr (realm, r) ↦ elim (Option-cases (lookup realm clients)) [
          | inl free ↦
              rw (get_ssh_connection_uncached ssh secrets realm clients r free)
                (connect-AllDialled history ssh realm secrets clients r all)
          | inr (none, nil) ↦ rw (get_ssh_connection_nil ssh secrets realm clients r nil) all
          | inr (some c, kept) ↦ elim (Bool-cases (ssh.answers_ping c)) [
            | inl a ↦ rw (get_ssh_connection_alive ssh secrets realm clients c r kept a) all
            | inr d ↦ rw (get_ssh_connection_dead ssh secrets realm clients c r kept d) (
                connect-AllDialled history ssh realm secrets (insert realm none clients) r
                  (insert-nil-AllDialled ((ssh, secrets) ∷ history) realm clients all))
          ]
        ]
      ]

  -- The histories, and the caches that they lead to.
  pub data Reaches : History Client Signer → Clients Client → Type 0 where
    start : Reaches [] []
    called :
        (ssh : Ssh Client Signer) (secrets : GoMap) (args : List String)
        {history : History Client Signer} {clients : Clients Client}
        → Reaches history clients
        → Reaches ((ssh, secrets) ∷ history) (run_command ssh secrets args clients).1

  run_command-cache :
      (ssh : Ssh Client Signer) (secrets : GoMap) (args : List String) (clients : Clients Client)
      → (run_command ssh secrets args clients).1 ≡ (get_ssh_connection ssh secrets clients).1
  unfolding run_command
  run_command-cache ssh secrets args clients =
      elim (Result-cases (get_ssh_connection ssh secrets clients).0) [
        | inl (c, e) ↦ rw e refl
        | inr (inl (x, e)) ↦ rw e refl
        | inr (inr e) ↦ rw e refl
      ]

  Reaches-AllDialled :
      (history : History Client Signer) (clients : Clients Client)
      → Reaches history clients
      → AllDialled history clients
  unfolding lookup
  Reaches-AllDialled _ _ start = λ realm client h. cc
  Reaches-AllDialled _ _ (called ssh secrets args {history} {clients} before) =
      rw (run_command-cache ssh secrets args clients) (
        get_ssh_connection-AllDialled history ssh secrets clients
          (Reaches-AllDialled history clients before))

  -- Whatever calls came before, and whatever the realms answered: an output that RunCommand returns
  -- was printed over a connection that this call or one of those, with the same realm_ip in its
  -- secrets, had dialled to that address.
  pub run_command-IsDialled :
      (history : History Client Signer) (ssh : Ssh Client Signer) (secrets : GoMap)
      (args : List String) (clients new : Clients Client) (out : String)
      → Reaches history clients
      → run_command ssh secrets args clients ≡ (ok out, new)
      → (realm : String) × (find Secret.realm_address secrets ≡ some realm)
        × ((client : Client) × IsDialled ((ssh, secrets) ∷ history) realm client
            × (ssh.combined_output client (join args " ") ≡ ok out))
  run_command-IsDialled history ssh secrets args clients new out before h =
      let ((client, found, printed), _) = run_command-Succeeds ssh secrets args clients new out h in
      elim (Option-cases (find Secret.realm_address secrets)) [
        | inl n ↦ cc (get_ssh_connection_unnamed ssh secrets clients n)
        | inr (realm, r) ↦
            let (here, _) =
              get_ssh_connection-Stores ssh secrets realm clients new client r found in
            let all =
              get_ssh_connection-AllDialled history ssh secrets clients
                (Reaches-AllDialled history clients before) in
            (
              realm,
              r,
              (
                client,
                all realm client
                    (ap (λ (x : Result Client × Clients Client). lookup realm x.1) found ∙ here),
                printed,
              ),
            )
      ]
