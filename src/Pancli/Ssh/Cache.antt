-- ===== src/Pancli/Ssh/Cache.antt =====
-- The cache of connections of getSSHConnection in pkg/pancli/pancli_ssh.go.
use panfs_container_storage.Base.{
  String, ◌≡◌, ◌≢◌, refl, ◌∙◌, sym, inl, inr, true, false, none, some, arith, Option-cases,
  Bool-cases,
}
use panfs_container_storage.Base.GoMap.{
  lookup, insert, GoMap, find, lookup-insert_self, lookup-insert_ne,
}
use panfs_container_storage.Base.Texts.{str_eq-cases}
use panfs_container_storage.Base.Results.{Error, Result, ok, err, panic}
use panfs_container_storage.Utils.Context.Secret
use panfs_container_storage.Pancli.Ssh.{
  Ssh, Clients, attempt, remember, connect, get_ssh_connection,
}

module _ {Client Signer : Type 0} where
  pub get_ssh_connection_nil :
      (ssh : Ssh Client Signer) (secrets : GoMap) (realm : String) (clients : Clients Client)
      → find Secret.realm_address secrets ≡ some realm
      → lookup realm clients ≡ some none
      → get_ssh_connection ssh secrets clients ≡ (panic, clients)
  unfolding get_ssh_connection
  get_ssh_connection_nil ssh secrets realm clients r e = ground arith

module _ {Client Signer : Type 0} (ssh : Ssh Client Signer) where
  -- No entry of the cache is a nil pointer.
  abbrev pub IsHealthy : Clients Client → Type 0
  IsHealthy clients = (realm : String) → lookup realm clients ≢ some none

  -- What a call does, by the cache's entry for the realm.
  pub get_ssh_connection_uncached :
      (secrets : GoMap) (realm : String) (clients : Clients Client)
      → find Secret.realm_address secrets ≡ some realm
      → lookup realm clients ≡ none
      → get_ssh_connection ssh secrets clients ≡ connect ssh realm secrets clients
  unfolding get_ssh_connection
  get_ssh_connection_uncached secrets realm clients r e = ground arith

  pub get_ssh_connection_alive :
      (secrets : GoMap) (realm : String) (clients : Clients Client) (client : Client)
      → find Secret.realm_address secrets ≡ some realm
      → lookup realm clients ≡ some (some client)
      → ssh.answers_ping client ≡ true
      → get_ssh_connection ssh secrets clients ≡ (ok client, clients)
  unfolding get_ssh_connection
  get_ssh_connection_alive secrets realm clients client r e a = ground arith

  pub get_ssh_connection_dead :
      (secrets : GoMap) (realm : String) (clients : Clients Client) (client : Client)
      → find Secret.realm_address secrets ≡ some realm
      → lookup realm clients ≡ some (some client)
      → ssh.answers_ping client ≡ false
      → get_ssh_connection ssh secrets clients
        ≡ connect ssh realm secrets (insert realm none clients)
  unfolding get_ssh_connection
  get_ssh_connection_dead secrets realm clients client r e a = ground arith

  connect-eq :
      (realm : String) (secrets : GoMap) (clients : Clients Client)
      → connect ssh realm secrets clients ≡ remember ssh realm (attempt ssh realm secrets) clients
  unfolding connect
  connect-eq realm secrets clients = refl

  -- After a dead connection could not be replaced, every later call for the realm panics, whatever
  -- its secrets are and whatever the realm answers by then.
  pub get_ssh_connection_poisoned :
      (secrets : GoMap) (realm : String) (clients : Clients Client) (client : Client) (e : Error)
      → find Secret.realm_address secrets ≡ some realm
      → lookup realm clients ≡ some (some client)
      → ssh.answers_ping client ≡ false
      → attempt ssh realm secrets ≡ err e
      → let after = (get_ssh_connection ssh secrets clients).1 in
        ((get_ssh_connection ssh secrets clients).0 ≡ err e)
        × ((later : Ssh Client Signer) (secrets' : GoMap)
            → find Secret.realm_address secrets' ≡ some realm
            → get_ssh_connection later secrets' after ≡ (panic, after))
  unfolding connect
  get_ssh_connection_poisoned secrets realm clients client e r c a d =
      let step : get_ssh_connection ssh secrets clients ≡ (err e, insert realm none clients) =
        get_ssh_connection_dead secrets realm clients client r c a ∙ rw (d, remember) in
      rw step (
        refl,
        λ later secrets' r'.
            get_ssh_connection_nil later secrets' realm (insert realm none clients) r'
              (lookup-insert_self realm none clients),
      )

  -- The cache holds the client under the realm, and its other entries are those of `old`.
  abbrev pub Stores : String → Client → Clients Client → Clients Client → Type 0
  Stores realm client old new =
      (lookup realm new ≡ some (some client))
      × ((other : String) → other ≢ realm → lookup other new ≡ lookup other old)

  remember-Stores :
      (realm : String) (result : Result Client) (clients new : Clients Client) (client : Client)
      → remember ssh realm result clients ≡ (ok client, new)
      → Stores realm client clients new
  unfolding remember
  remember-Stores realm (ok c) clients new client h =
      let same : c ≡ client = cc in
      let n : new ≡ insert realm (some c) clients = cc in
      rw (n, ← same)
        (
          lookup-insert_self realm (some c) clients,
          λ other d. lookup-insert_ne other realm (some c) clients d,
        )
  remember-Stores realm (err e) clients new client h = cc
  remember-Stores realm panic clients new client h = cc

  -- A connection that is returned stands in the cache under its realm afterwards, and no other
  -- realm's entry has changed.
  pub get_ssh_connection-Stores :
      (secrets : GoMap) (realm : String) (clients new : Clients Client) (client : Client)
      → find Secret.realm_address secrets ≡ some realm
      → get_ssh_connection ssh secrets clients ≡ (ok client, new)
      → Stores realm client clients new
  unfolding connect
  get_ssh_connection-Stores secrets realm clients new client r h =
      elim (Option-cases (lookup realm clients)) [
        | inl e ↦
            remember-Stores realm (attempt ssh realm secrets) clients new client
              (sym (get_ssh_connection_uncached secrets realm clients r e) ∙ h)
        | inr (none, e) ↦ cc (get_ssh_connection_nil ssh secrets realm clients r e)
        | inr (some c, e) ↦ elim (Bool-cases (ssh.answers_ping c)) [
          | inl a ↦
              let step = get_ssh_connection_alive secrets realm clients c r e a in
              let same : c ≡ client = cc in
              let n : new ≡ clients = cc in rw (n, ← same) (e, λ other d. refl)
          | inr d ↦
              let stored =
                remember-Stores realm (attempt ssh realm secrets) (insert realm none clients) new
                  client (sym (get_ssh_connection_dead secrets realm clients c r e d) ∙ h) in
              (stored.0, λ other u. stored.1 other u ∙ lookup-insert_ne other realm none clients u)
        ]
      ]

  -- A call that returns a connection leaves no nil pointer in a cache that had none.
  get_ssh_connection-IsHealthy :
      (secrets : GoMap) (realm : String) (clients new : Clients Client) (client : Client)
      → find Secret.realm_address secrets ≡ some realm
      → IsHealthy clients
      → get_ssh_connection ssh secrets clients ≡ (ok client, new)
      → IsHealthy new
  get_ssh_connection-IsHealthy secrets realm clients new client r healthy h other =
      let (here, elsewhere) = get_ssh_connection-Stores secrets realm clients new client r h in
      elim (str_eq-cases other realm) [
        | inl (_, same) ↦ rw (same, here) (λ e. cc)
        | inr (_, differ) ↦ rw (elsewhere other differ) (healthy other)
      ]
