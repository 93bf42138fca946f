-- ===== src/Node/Credentials/Stores.antt =====
-- What the credential store holds once the registries of the secrets are read into it.
use data_csi.Base.{
  String, ◌≡◌, ◌≢◌, ◌∙◌, refl, [], ◌∷◌, Option, none, some, ok, arith, ◌==◌, eq_iff, eq-false_of_ne,
  if◌then◌else◌, Bool-cases, Result-cases, inl, inr,
}
use data_csi.Base.Dict.{Dict, lookup, get_or_empty}
use data_csi.Host.{Host, Credential, AuthConfig, ConfigFile}
use data_csi.Node.Credentials.{credential, store_all, load_credentials}

-- No key twice, as in a map.
abbrev pub Distinct : {A : Type 0} → Dict A → Type 0
Distinct [] = Unit
Distinct ((k, a) ∷ m) = (lookup k m ≡ none) × Distinct m

-- The memory store, seen by what it has for a host: a new one has nothing, and `Put` succeeds and
-- replaces the entry of its host.
pub record StoreLaws (H : Host) (get : String → H.CredentialStore → Option Credential)
    : Type 0 where
  pub get-new : (host : String) → get host H.new_memory_store ≡ none
  pub put_ok :
      (host : String) (c : Credential) (s : H.CredentialStore)
      → (s' : H.CredentialStore) × (H.put host c s ≡ ok s')
  pub get-put :
      (host : String) (c : Credential) (s s' : H.CredentialStore) (other : String)
      → H.put host c s ≡ ok s'
      → get other s' ≡ (if host == other then some c else get other s)

-- What is stored for a host, from the host's entry in the configuration and what was stored before:
-- the credential of the entry, which is well formed, or what was there if there is no entry.
abbrev pub IsStored :
    (H : Host) → Option AuthConfig → Option Credential → Option Credential → Type 0
IsStored H none before stored = stored ≡ before
IsStored H (some cfg) before stored =
    (c : Credential) × (credential H cfg ≡ ok c) × (stored ≡ some c)

IsStored-unique :
    (H : Host) (o : Option AuthConfig) (before : Option Credential)
    {stored other : Option Credential}
    → IsStored H o before stored
    → IsStored H o before other
    → stored ≡ other
IsStored-unique H none before e f = cc (e, f)
IsStored-unique H (some cfg) before (c, p, e) (c', p', f) = cc (p, p', e, f)

module _ {H : Host} {get : String → H.CredentialStore → Option Credential}
    (L : StoreLaws H get) where
  store_all-IsStored :
      (auths : Dict AuthConfig) (s s' : H.CredentialStore) (host : String)
      → Distinct auths
      → store_all H auths s ≡ ok s'
      → IsStored H (lookup host auths) (get host s) (get host s')
  unfolding store_all
  store_all-IsStored [] s s' host d h = ground arith
  store_all-IsStored ((k, cfg) ∷ rest) s s' host d h = elim (Result-cases (credential H cfg)) [
    | inr (e, p) ↦ absurd (ground arith)
    | inl (c, p) ↦
        let (s1, q) = L.put_ok k c s in
        let ih : IsStored H (lookup host rest) (get host s1) (get host s') =
          store_all-IsStored rest s1 s' host d.1 (ground arith) in
        let step = L.get-put k c s s1 host q in
        elim (Bool-cases (k == host)) [
          | inl x ↦
              let absent : lookup host rest ≡ none = rw (← (eq_iff k host).0 x) d.0 in
              let kept : get host s' ≡ get host s1 = rw absent at ih in
              let stored : get host s1 ≡ some c = ground arith in rw x (c, p, kept ∙ stored)
          | inr x ↦ let same : get host s1 ≡ get host s = ground arith in rw x (rw same at ih)
        ]
  ]

  -- If every entry is well formed, all are stored.
  store_all-total :
      (auths : Dict AuthConfig) (s : H.CredentialStore)
      → Distinct auths
      → ((host : String) (cfg : AuthConfig)
          → lookup host auths ≡ some cfg
          → (c : Credential) × (credential H cfg ≡ ok c))
      → (s' : H.CredentialStore) × (store_all H auths s ≡ ok s')
  unfolding store_all
  store_all-total [] s d f = (s, refl)
  store_all-total ((k, cfg) ∷ rest) s d f =
      let (c, p) = f k cfg (ground (arith, eq_iff k k)) in
      let (s1, q) = L.put_ok k c s in
      let (s', r) =
        store_all-total rest s1 d.1
          (λ host other e. f host other (ground (arith, d.0, e, eq_iff k host))) in
      (s', ground arith)

  -- After the secrets are read without an error, where they have a configuration that is decoded
  -- to a map, the store has for each host the credential of the host's entry in it, which is
  -- well formed, and nothing for a host without one. The store is one in which `Put` replaces
  -- the entry of its host.
  pub load_credentials-IsStored :
      (secrets : Dict String) (config : ConfigFile) (store : H.CredentialStore) (host : String)
      → get_or_empty ".dockerconfigjson" secrets ≢ ""
      → H.decode_config (get_or_empty ".dockerconfigjson" secrets) ≡ ok config
      → Distinct config.auth_configs
      → load_credentials H secrets ≡ ok store
      → IsStored H (lookup host config.auth_configs) none (get host store)
  unfolding load_credentials
  load_credentials-IsStored secrets config store host n e d h =
      let stored =
        store_all-IsStored config.auth_configs H.new_memory_store store host d
          (ground (arith, eq-false_of_ne _ "" n)) in
      rw (L.get-new host) at stored

  -- The order in which the entries of a map are visited does not matter, on a store in which
  -- `Put` replaces the entry of its host: if one order is read without an error then so is any
  -- other of the same entries, and the stores have the same for each host.
  pub store_all-order :
      (auths other : Dict AuthConfig) (s s' : H.CredentialStore)
      → Distinct auths
      → Distinct other
      → ((host : String) → lookup host auths ≡ lookup host other)
      → store_all H auths s ≡ ok s'
      → (t : H.CredentialStore) × (store_all H other s ≡ ok t)
        × ((host : String) → get host t ≡ get host s')
  store_all-order auths other s s' d d' same h =
      let read : (host : String) (cfg : AuthConfig)
          → lookup host other ≡ some cfg
          → (c : Credential) × (credential H cfg ≡ ok c) =
        λ host cfg e.
          let stored : IsStored H (lookup host auths) (get host s) (get host s') =
            store_all-IsStored auths s s' host d h in
          let (c, p, _) = rw (same host ∙ e) at stored in (c, p) in
      let (t, r) = store_all-total other s d' read in
      (
        t,
        r,
        λ host.
            let stored : IsStored H (lookup host auths) (get host s) (get host s') =
              store_all-IsStored auths s s' host d h in
            IsStored-unique H (lookup host other) _ (store_all-IsStored other s t host d' r)
              (rw (same host) at stored),
      )
