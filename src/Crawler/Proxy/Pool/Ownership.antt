-- ===== src/Crawler/Proxy/Pool/Ownership.antt =====
-- Which leases are live, whatever the order in which threads call the pool.
use sahabino.Common.{
  ℕ, ◌≡◌, refl, subst, inl, inr, Bool, false, Option, none, some, List, [], ◌∷◌, ◌++◌, arith,
  if◌then◌else◌, Bool-cases, Option-cases, length, get_elem?, get_elem?-snoc, get_elem?-set,
  get_elem?-some, set, is_some, ℕ_discrete, not, ◌&&◌,
}
use sahabino.Common.Dict.{lookup, remove, lookup-insert, lookup-remove}
use sahabino.Crawler.Proxy
use sahabino.Crawler.Proxy.{ProxyLease}
use sahabino.Crawler.Proxy.Pool.{
  ProxyPool, new_pool, select, held, grant, acquire_new, acquire, is_recorded, release, rotate,
  proxy_id, record_success, record_failure, start_cooldown, mark_unhealthy, is_usable,
}
use sahabino.Crawler.Proxy.Pool.Selection.{Selects, exhausted, chosen, select-Selects}

-- The dictionary of the pool holds the live leases and nothing else, each under its own context.
pub record IsOwned (p : ProxyPool) : Type 0 where
  pub recorded :
      (id : ℕ) (l : ProxyLease)
      → get_elem? p.heap id ≡ some l
      → l.released ≡ false
      → lookup l.context_id p.leases ≡ some id
  pub live :
      (c id : ℕ)
      → lookup c p.leases ≡ some id
      → (l : ProxyLease) × (get_elem? p.heap id ≡ some l)
        × (l.context_id ≡ c)
        × (l.released ≡ false)

-- Only the heap and the dictionary matter.
IsOwned-same : (p q : ProxyPool) → q.heap ≡ p.heap → q.leases ≡ p.leases → IsOwned p → IsOwned q
IsOwned-same p q h l v = record {
  recorded = λ id lease found free.
      rw l (v.recorded id lease (subst (λ x. get_elem? x id ≡ some lease) h found) free);
  live = λ c id found. rw h (v.live c id (subst (λ x. lookup c x ≡ some id) l found));
}

abbrev new_lease : ℕ → Option ℕ → ℕ → ProxyLease
new_lease c endpoint now = record {
  context_id = c;
  endpoint = endpoint;
  acquired_at = now;
  released = false;
}

-- What `live` asks of an entry of the dictionary.
abbrev IsLive : List ProxyLease → ℕ → ℕ → Type 0
IsLive heap c id =
    (l : ProxyLease) × (get_elem? heap id ≡ some l) × (l.context_id ≡ c) × (l.released ≡ false)

snoc-IsLive :
    (heap : List ProxyLease) (x : ProxyLease) (c id : ℕ)
    → IsLive heap c id
    → IsLive (heap ++ x ∷ []) c id
snoc-IsLive heap x c id (l, found, at, free) =
    (l, ground (arith, get_elem?-snoc heap x id, get_elem?-some heap id l found), at, free)

-- A new lease for a context that holds none.
grant-IsOwned :
    (p : ProxyPool) (c now : ℕ) (endpoint : Option ℕ)
    → lookup c p.leases ≡ none
    → IsOwned p
    → IsOwned (grant p c endpoint now).1
unfolding grant
grant-IsOwned p c now endpoint free v = record {
  recorded = λ id l found unreleased. ground (
    arith,
    get_elem?-snoc p.heap (new_lease c endpoint now) id,
    lookup-insert c l.context_id (length p.heap) p.leases,
    v.recorded id l,
  );
  live = λ d id found. elim (ℕ_discrete c d) [
    | yes e ↦ (
      new_lease c endpoint now,
      ground (
        arith,
        get_elem?-snoc p.heap (new_lease c endpoint now) id,
        lookup-insert c d (length p.heap) p.leases,
      ),
      e,
      refl,
    )
    | no ne ↦
        snoc-IsLive p.heap (new_lease c endpoint now) d id
          (v.live d id (ground (arith, lookup-insert c d (length p.heap) p.leases)))
  ];
}

module _ (p : ProxyPool) (id : ℕ) (l : ProxyLease) (e : get_elem? p.heap id ≡ some l)
    (v : IsOwned p) where
  abbrev released_pool : ProxyPool
  released_pool = record p {
    heap = set p.heap id (Proxy.release l);
    leases = if is_recorded p l id then remove l.context_id p.leases else p.leases;
  }

  released_recorded :
      (j : ℕ) (x : ProxyLease)
      → get_elem? released_pool.heap j ≡ some x
      → x.released ≡ false
      → lookup x.context_id released_pool.leases ≡ some j
  unfolding Proxy.release
  released_recorded j x found free = ground (
    arith,
    get_elem?-set p.heap id j (Proxy.release l),
    v.recorded j x,
    lookup-remove l.context_id x.context_id p.leases,
  )

  -- The lease that an entry of the dictionary after the release stands for is another one.
  entry_stays : (d j : ℕ) → lookup d released_pool.leases ≡ some j → lookup d p.leases ≡ some j
  entry_stays d j found = ground (arith, lookup-remove l.context_id d p.leases)

  released-IsLive :
      (d j : ℕ) → lookup d released_pool.leases ≡ some j → IsLive released_pool.heap d j
  released-IsLive d j found =
      let (x, at, context, free) = v.live d j (entry_stays d j found) in
      (
        x,
        ground (
          arith,
          get_elem?-set p.heap id j (Proxy.release l),
          lookup-remove l.context_id d p.leases,
          entry_stays d j found,
        ),
        context,
        free,
      )

  released-IsOwned : IsOwned released_pool
  released-IsOwned = record { recorded = released_recorded; live = released-IsLive }

release-IsOwned : (p : ProxyPool) (id : ℕ) → IsOwned p → IsOwned (release p id)
unfolding release
release-IsOwned p id v = elim (Option-cases (get_elem? p.heap id)) [
  | inl e ↦ rw (release, e) v
  | inr (l, e) ↦ rw (release, e) (released-IsOwned p id l e v)
]

pub select-heap :
    (p : ProxyPool) (now : ℕ) (excluded : Option ℕ) (r : Option ℕ × ProxyPool)
    → Selects p now excluded 0 (length p.endpoints) r
    → (r.1.heap ≡ p.heap) × (r.1.leases ≡ p.leases)
select-heap p now excluded r (exhausted e s) = (rw e, rw e)
select-heap p now excluded r (chosen k x le lt s found ok e) = (rw e, rw e)

held-none : (p : ProxyPool) (c : ℕ) → IsOwned p → held p c ≡ none → lookup c p.leases ≡ none
unfolding held
held-none p c v h = elim (Option-cases (lookup c p.leases)) [
  | inl e ↦ e
  | inr (id, e) ↦ ground (arith, v.live c id e)
]

acquire_new-IsOwned :
    (p : ProxyPool) (c now : ℕ) (excluded : Option ℕ)
    → lookup c p.leases ≡ none
    → IsOwned p
    → IsOwned (acquire_new p c excluded now).1
unfolding acquire_new
acquire_new-IsOwned p c now excluded free v =
    let (endpoint, p') = select p now excluded in
    let (heap, leases) =
      select-heap p now excluded (select p now excluded) (select-Selects p now excluded) in
    let v' = IsOwned-same p p' heap leases v in
    elim (Bool-cases (not (is_some endpoint) && not p.direct_fallback)) [
      | inl e ↦ rw (acquire_new, e) v'
      | inr e ↦ rw (acquire_new, e) (grant-IsOwned p' c now endpoint (rw leases free) v')
    ]

acquire-IsOwned :
    (p : ProxyPool) (c now : ℕ) (excluded : Option ℕ)
    → IsOwned p
    → IsOwned (acquire p c excluded now).1
unfolding acquire
acquire-IsOwned p c now excluded v = elim (Option-cases (held p c)) [
  | inl e ↦ rw (acquire, e) (acquire_new-IsOwned p c now excluded (held-none p c v e) v)
  | inr (id, e) ↦ rw (acquire, e) v
]

rotate-IsOwned : (p : ProxyPool) (id c now : ℕ) → IsOwned p → IsOwned (rotate p id c now).1
unfolding rotate
rotate-IsOwned p id c now v =
    acquire-IsOwned (release p id) c now (proxy_id p id) (release-IsOwned p id v)

pub data Call : Type 0 where
  acquires releases : ℕ → ℕ → Call
  rotates : ℕ → ℕ → ℕ → Call
  succeeds unhealthy : ℕ → Call
  fails cools_down asks : ℕ → ℕ → Call

-- The pool after a method, whether it returns or raises.
unfoldable pub after : ProxyPool → Call → ProxyPool
after p (acquires c now) = (acquire p c none now).1
after p (releases id _) = release p id
after p (rotates id c now) = (rotate p id c now).1
after p (succeeds id) = record_success p id
after p (unhealthy id) = mark_unhealthy p id
after p (fails id now) = (record_failure p id now).1
after p (cools_down id now) = start_cooldown p id now
after p (asks id now) = (is_usable p id now).1

unfoldable pub after_all : ProxyPool → List Call → ProxyPool
unfolding after
after_all p [] = p
after_all p (c ∷ cs) = after_all (after p c) cs

-- The methods that touch the health of endpoints leave the leases alone.
after-IsOwned : (p : ProxyPool) (c : Call) → IsOwned p → IsOwned (after p c)
unfolding after record_success mark_unhealthy record_failure start_cooldown is_usable
after-IsOwned p (acquires c now) v = acquire-IsOwned p c now none v
after-IsOwned p (releases id _) v = release-IsOwned p id v
after-IsOwned p (rotates id c now) v = rotate-IsOwned p id c now v
after-IsOwned p (succeeds id) v = IsOwned-same p _ (ground arith) (ground arith) v
after-IsOwned p (unhealthy id) v = IsOwned-same p _ (ground arith) (ground arith) v
after-IsOwned p (fails id now) v = IsOwned-same p _ (ground arith) (ground arith) v
after-IsOwned p (cools_down id now) v = IsOwned-same p _ (ground arith) (ground arith) v
after-IsOwned p (asks id now) v = IsOwned-same p _ (ground arith) (ground arith) v

pub after_all-IsOwned : (p : ProxyPool) (cs : List Call) → IsOwned p → IsOwned (after_all p cs)
unfolding after_all
after_all-IsOwned p [] v = v
after_all-IsOwned p (c ∷ cs) v = after_all-IsOwned (after p c) cs (after-IsOwned p c v)

pub new_pool-IsOwned :
    (count threshold cooldown : ℕ) (direct : Bool) (p : ProxyPool)
    → new_pool count threshold cooldown direct ≡ some p
    → IsOwned p
unfolding new_pool lookup
new_pool-IsOwned count threshold cooldown direct p e = record {
  recorded = λ id l found free. ground arith;
  live = λ c id found. absurd (ground arith);
}

held-recorded :
    (p : ProxyPool) (id : ℕ) (l : ProxyLease)
    → IsOwned p
    → get_elem? p.heap id ≡ some l
    → l.released ≡ false
    → held p l.context_id ≡ some id
unfolding held
held-recorded p id l v found free = ground (arith, v.recorded id l)

-- After any calls on a new pool, a context has at most one lease that is not released, and that
-- lease is the one that `acquire` returns to the context.
pub one_live_lease :
    (count threshold cooldown : ℕ) (direct : Bool) (p : ProxyPool) (cs : List Call) (id j now : ℕ)
    (l x : ProxyLease)
    → new_pool count threshold cooldown direct ≡ some p
    → get_elem? (after_all p cs).heap id ≡ some l
    → l.released ≡ false
    → get_elem? (after_all p cs).heap j ≡ some x
    → x.released ≡ false
    → x.context_id ≡ l.context_id
    → (j ≡ id) × (acquire (after_all p cs) l.context_id none now ≡ (some id, after_all p cs))
unfolding acquire
one_live_lease count threshold cooldown direct p cs id j now l x new found free at live same =
    let v = after_all-IsOwned p cs (new_pool-IsOwned count threshold cooldown direct p new) in
    (
      ground (arith, v.recorded j x at live, v.recorded id l found free),
      rw (acquire, held-recorded (after_all p cs) id l v found free),
    )
