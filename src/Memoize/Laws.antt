-- ===== src/Memoize/Laws.antt =====
-- Calls of a memoised function (src/ut_components/memoize.py).
use greenline.Base.{
  ℕ, ◌≡◌, refl, ap, true, false, not, ◌||◌, ltb, nat_eq, ◌+◌, Option, none, some, ◌++◌, codes,
  eq_refl, lookup-erase_where, if◌then◌else◌, Bool-cases, inl, inr,
}
use greenline.Kv.{Json, Kv, IsLawful, put, get_value, delete_partial}
use greenline.Kv.Laws.{lasts, get_value-put}
use greenline.Kv.Like.{like_prefix, like_prefix-append}
use greenline.Memoize.{
  Hashing, Function, memoize_key, hash_function_name, hash_function_args, answered, kept, memoized,
  delete_memoized, delete_all_memoized,
}

module _ (J : Json) (H : Hashing J) (ttl : ℕ) (f : Function J H) (args : H.Arguments) where
  -- A call that runs the function and gets a value has put it under its key.
  kept-put :
      (done : ℕ) (v : J.Value) (o : Option J.Value) (kv : Kv)
      → (kept J H done ttl (memoize_key J H f args) o kv).result ≡ some v
      → ((kept J H done ttl (memoize_key J H f args) o kv).kv
          ≡ put J done (memoize_key J H f args) v (some ttl) kv)
        × (o ≡ some v)
  unfolding kept
  kept-put done v none kv h = absurd (cc h)
  kept-put done v (some w) kv h =
      (ap (λ x. put J done (memoize_key J H f args) x (some ttl) kv) (value h), h)
    where
      value : {a b : J.Value} → ◌≡◌ {A = Option J.Value} (some a) (some b) → a ≡ b
      value e = cc

  answered-put :
      (done : ℕ) (v : J.Value) (o : Option J.Value) (kv : Kv)
      → let r = answered J H done ttl f args o kv in
        r.called ≡ true
        → r.result ≡ some v
        → (r.kv ≡ put J done (memoize_key J H f args) v (some ttl) kv) × (f.apply args ≡ some v)
  unfolding answered
  answered-put done v none kv called h = kept-put done v (f.apply args) kv h
  answered-put done v (some w) kv called h = elim (Bool-cases (H.is_none w)) [
    | inl e ↦ rw e (kept-put done v (f.apply args) kv (rw e at h))
    | inr n ↦ absurd (cc (rw n at called))
  ]

  kept-same :
      (done : ℕ) (o : Option J.Value) (kv : Kv)
      → ((kept J H done ttl (memoize_key J H f args) o kv).called ≡ true)
        × ((kept J H done ttl (memoize_key J H f args) o kv).result ≡ o)
  unfolding kept
  kept-same done none kv = (refl, refl)
  kept-same done (some v) kv = (refl, refl)

  -- After a call that ran the function and got a value other than `None`, another call with the same
  -- arguments gives that value and does not run the function if the lifetime is 0 seconds or is not over:
  -- the time of the other call is before the time at which the function returned plus the lifetime.
  -- Otherwise the other call runs the function and gives what it returns.
  pub memoized_again :
      (now done later end : ℕ) (v : J.Value) (kv : Kv)
      → IsLawful J
      → (memoized J H ttl f now done args kv).called ≡ true
      → (memoized J H ttl f now done args kv).result ≡ some v
      → H.is_none v ≡ false
      → let again = memoized J H ttl f later end args (memoized J H ttl f now done args kv).kv in
        let alive = nat_eq ttl 0 || ltb later (done + ttl) in
        (again.called ≡ not alive) × (again.result ≡ (if alive then some v else f.apply args))
  unfolding memoized answered
  memoized_again now done later end v kv lawful called result some_value =
      let k = memoize_key J H f args in
      let (e, applied) = answered-put done v (get_value J now k kv) kv called result in
      rw (e, get_value-put J lawful done later k k, eq_refl k)
        (elim (Bool-cases (lasts done later (some ttl))) [
          | inl alive ↦ rw (alive, some_value) (refl, refl)
          | inr over ↦ rw over (kept-same end (f.apply args) (put J done k v (some ttl) kv))
        ])

-- After the results of a function, or those of all functions, are deleted, a call runs the function.
pub delete-memoized :
    (J : Json) (H : Hashing J) (ttl : ℕ) (f : Function J H) (args : H.Arguments) (now done : ℕ)
    (kv : Kv)
    → ((memoized J H ttl f now done args (delete_memoized J H f kv)).called ≡ true)
      × ((memoized J H ttl f now done args (delete_all_memoized kv)).called ≡ true)
unfolding memoized answered get_value delete_memoized delete_all_memoized delete_partial memoize_key
delete-memoized J H ttl f args now done kv =
    let name = hash_function_name J H f in
    let rest = codes "." ++ hash_function_args J H args in
    let found : like_prefix (codes "memoize." ++ name) (codes "memoize." ++ (name ++ rest)) ≡ true =
      like_prefix-append (codes "memoize." ++ name) rest in
    (
      rw (lookup-erase_where, found) (kept-same J H ttl f args done (f.apply args) _).0,
      rw (lookup-erase_where, like_prefix-append (codes "memoize") (codes "." ++ (name ++ rest)))
          (kept-same J H ttl f args done (f.apply args) _).0,
    )
