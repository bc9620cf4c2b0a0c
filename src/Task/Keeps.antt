-- ===== src/Task/Keeps.antt =====
-- What an operation of the manager keeps, and what it sends to the broker.
use app_module_sdk.Base.{
  ◌≡◌, refl, sym, ap, subst, ◌∙◌, ◌≢◌, Option, none, some, List, [], ◌∷◌, ◌++◌, All, All-append,
  ◌<◌, ◌≤◌, arith, eq_iff,
}
use app_module_sdk.Lifecycle.{Credential}
use app_module_sdk.Task.{
  Instant, Capability, CacheCredential, StorageCredential, Resources, Error, validate_capability,
}
use app_module_sdk.Task.Broker.{Endpoint, Request, Net}
use app_module_sdk.Task.Manager.{State}

-- A credential that was there is replaced by one in relation to it.
abbrev pub Kept : {C : Type 0} → (C → C → Type 0) → Option C → Option C → Type 0
Kept {C = C} R none new = Unit
Kept {C = C} R (some c) new = (c' : C) × (new ≡ some c') × R c c'

abbrev pub SameDatabase : Credential → Credential → Type 0
SameDatabase c d =
    (c.host ≡ d.host) × (c.port ≡ d.port) × (c.database ≡ d.database) × (c.username ≡ d.username)

abbrev pub SameCache : CacheCredential → CacheCredential → Type 0
SameCache c d = (c.endpoint ≡ d.endpoint) × (c.username ≡ d.username)

abbrev pub SameStorage : StorageCredential → StorageCredential → Type 0
SameStorage c d =
    (c.bucket ≡ d.bucket)
    × (c.region ≡ d.region)
    × (c.prefix ≡ d.prefix)
    × (c.cdn_base ≡ d.cdn_base)

-- The scopes of the credentials stay, and none of them is lost.
pub record KeepsScope (r : Resources) (r' : Resources) : Type 0 where
  pub database : Kept SameDatabase r.database r'.database
  pub cache : Kept SameCache r.cache r'.cache
  pub storage : Kept SameStorage r.storage r'.storage

some-injective : {A : Type 0} {a b : A} → some a ≡ some b → a ≡ b
some-injective e = cc

module _ {C : Type 0} (R : C → C → Type 0) where
  pub Kept-refl : ((c : C) → R c c) → (o : Option C) → Kept R o o
  Kept-refl h none = tt
  Kept-refl h (some c) = (c, refl, h c)

  pub Kept-trans :
      ((a b c : C) → R a b → R b c → R a c)
      → (o p q : Option C) → Kept R o p
      → Kept R p q
      → Kept R o q
  Kept-trans h none p q x y = tt
  Kept-trans h (some c) none q (c', e, r) y = cc
  Kept-trans h (some c) (some d) q (c', e, r) (d', e', r') =
      (d', e', h c d d' (subst (R c) (some-injective (sym e)) r) r')

-- A request that is no claim and no terminal callback.
abbrev pub IsWork : Request → Type 0
IsWork q = elim q.endpoint [ Endpoint.heartbeat ↦ Unit | Endpoint.refresh ↦ Unit | _ ↦ ⊥ ]

pub KeepsScope-refl : (r : Resources) → KeepsScope r r
KeepsScope-refl r = record {
  database = Kept-refl SameDatabase (λ c. (refl, refl, refl, refl)) r.database;
  cache = Kept-refl SameCache (λ c. (refl, refl)) r.cache;
  storage = Kept-refl SameStorage (λ c. (refl, refl, refl, refl)) r.storage;
}

pub KeepsScope-trans : (r s t : Resources) → KeepsScope r s → KeepsScope s t → KeepsScope r t
KeepsScope-trans r s t h k = record {
  database =
      Kept-trans SameDatabase (λ a b c p q. (p.0 ∙ q.0, p.1 ∙ q.1, p.2 ∙ q.2, p.3 ∙ q.3)) r.database
        s.database t.database h.database k.database;
  cache =
      Kept-trans SameCache (λ a b c p q. (p.0 ∙ q.0, p.1 ∙ q.1)) r.cache s.cache t.cache h.cache
        k.cache;
  storage =
      Kept-trans SameStorage (λ a b c p q. (p.0 ∙ q.0, p.1 ∙ q.1, p.2 ∙ q.2, p.3 ∙ q.3)) r.storage
        s.storage t.storage h.storage k.storage;
}

-- From one state of what is outside to another, by reading the clock and by exchanges with the broker.
pub data Since {S : Type 0} (net : Net S) (a : S) : S → Type 0 where
  now_is : Since net a a
  ticked : {b : S} → Since net a b → Since net a (net.now b).1
  exchanged : {b : S} (q : Request) → Since net a b → Since net a (net.exchange q b).1

pub Since-trans :
    {S : Type 0} {net : Net S} {a b c : S} → Since net a b → Since net b c → Since net a c
Since-trans h now_is = h
Since-trans h (ticked k) = ticked (Since-trans h k)
Since-trans h (exchanged q k) = exchanged q (Since-trans h k)

-- A reading of the clock, in a state that was reached since the first one.
pub record Reading {S : Type 0} (net : Net S) (a : S) (t : Instant) : Type 0 where
  pub at : S
  pub reached : Since net a at
  pub is_read : (net.now at).0 ≡ t

pub Reading-Since :
    {S : Type 0} {net : Net S} {a b : S} {t : Instant}
    → Since net a b
    → Reading net b t
    → Reading net a t
Reading-Since h r = record { at = r.at; reached = Since-trans h r.reached; is_read = r.is_read }

-- A lease is open at an instant: it has a token, ends later, and is not to be renewed after its end.
pub record IsOpen (c : Capability) (t : Instant) : Type 0 where
  pub token : c.token ≢ ""
  pub unexpired : t < c.expires_at
  pub renewable : c.refresh_after ≤ c.expires_at

-- The lease is the one before, or one that was open at an instant that was read since.
pub data Leased {S : Type 0} (net : Net S) (a : S) (old new : Capability) : Type 0 where
  unchanged : new ≡ old → Leased net a old new
  renewed : (t : Instant) → Reading net a t → IsOpen new t → Leased net a old new

pub Leased-trans :
    {S : Type 0} {net : Net S} {a b : S} {c d e : Capability}
    → Since net a b
    → Leased net a c d
    → Leased net b d e
    → Leased net a c e
Leased-trans s (unchanged p) (unchanged q) = unchanged (q ∙ p)
Leased-trans s (renewed t r o) (unchanged q) = renewed t r (subst (λ x. IsOpen x t) (sym q) o)
Leased-trans s h (renewed t r o) = renewed t (Reading-Since s r) o

pub validate_capability-IsOpen :
    (c : Capability) (t : Instant) → validate_capability c t ≡ none → IsOpen c t
unfolding validate_capability
validate_capability-IsOpen c t h = record {
  token = λ e. ground (arith, eq_iff c.token "");
  unexpired = ground arith;
  renewable = ground arith;
}

-- From a state to a later one: the attempt, the scopes and the first cause stay, the lease stays or
-- is replaced by an open one, and what was sent since is work.
pub record Keeps {S : Type 0} (net : Net S) (s : State S) (s' : State S) : Type 0 where
  pub job : s'.manager.job ≡ s.manager.job
  pub attempt : s'.manager.attempt ≡ s.manager.attempt
  pub terminal : s'.manager.terminal ≡ s.manager.terminal
  pub token : s.manager.capability.token ≢ "" → s'.manager.capability.token ≢ ""
  pub lease : Leased net s.world.outside s.manager.capability s'.manager.capability
  pub later : Since net s.world.outside s'.world.outside
  pub scope : KeepsScope s.manager.resources s'.manager.resources
  pub cause : (e : Error) → s.manager.cause ≡ some e → s'.manager.cause ≡ some e
  pub sent : (xs : List Request) × (s'.world.sent ≡ xs ++ s.world.sent) × All IsWork xs

append_assoc : {A : Type 0} (xs ys zs : List A) → xs ++ (ys ++ zs) ≡ (xs ++ ys) ++ zs
append_assoc [] ys zs = refl
append_assoc (x ∷ xs) ys zs = rw (append_assoc xs ys zs)

module _ {S : Type 0} (net : Net S) where
  pub Keeps-refl : (s : State S) → Keeps net s s
  Keeps-refl s = record {
    job = refl;
    attempt = refl;
    terminal = refl;
    token = λ h. h;
    lease = unchanged refl;
    later = now_is;
    scope = KeepsScope-refl s.manager.resources;
    cause = λ e h. h;
    sent = ([], refl, tt);
  }

  pub Keeps-trans : (s t u : State S) → Keeps net s t → Keeps net t u → Keeps net s u
  Keeps-trans s t u h k =
      let (xs, e, a) = h.sent in
      let (ys, f, b) = k.sent in
      record {
        job = k.job ∙ h.job;
        attempt = k.attempt ∙ h.attempt;
        terminal = k.terminal ∙ h.terminal;
        token = λ p. k.token (h.token p);
        lease = Leased-trans h.later h.lease k.lease;
        later = Since-trans h.later k.later;
        scope =
            KeepsScope-trans s.manager.resources t.manager.resources u.manager.resources h.scope
              k.scope;
        cause = λ e p. k.cause e (h.cause e p);
        sent = (
          ys ++ xs,
          f ∙ ap (λ l. ys ++ l) e ∙ append_assoc ys xs s.world.sent,
          All-append IsWork ys xs b a,
        );
      }
