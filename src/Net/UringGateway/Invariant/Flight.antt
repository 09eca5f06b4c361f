-- ===== src/Net/UringGateway/Invariant/Flight.antt =====
-- What is in flight, counted: an entry more, an entry less, and the tags apart.
use lite_exchange.Base.{
  ℕ, zero, suc, ◌+◌, ◌^◌, ◌<◌, ◌≡◌, refl, sym, ◌∙◌, ap, ◌≢◌, ◌⊎◌, inl, inr, arith, false, ◌==◌,
  if◌then◌else◌, List, [], ◌∷◌, ◌++◌, All, All-append, All-append_left, All-append_right, length,
  drop,
}
use mathlib.Core.List.{append_assoc, append-nil}
use lite_exchange.Net.UringGateway.{
  UringGateway, Effect, prep, submit, queue_exit, wait_cqe, cq_advance, send_now, set_nodelay,
  close, tag, submit_all, call,
}
use lite_exchange.Net.UringGateway.Tags.{tag-sum}
use lite_exchange.Net.UringGateway.Invariant.{
  IsUring, Known, count, count-append, prepared, entries_since,
}

-- An entry within, and the same at the end.
pub count-within :
    (x d : ℕ) (a b : List ℕ) → count x (a ++ d ∷ b) ≡ (if x == d then 1 else 0) + count x (a ++ b)
count-within x d a b = omega (arith, count-append x a (d ∷ b), count-append x a b)

pub count-last :
    (x d : ℕ) (a : List ℕ) → count x (a ++ d ∷ []) ≡ (if x == d then 1 else 0) + count x a
count-last x d a = omega (arith, count-append x a (d ∷ []))

pub Known-without : (d : ℕ) (a b : List ℕ) → All Known (a ++ d ∷ b) → All Known (a ++ b)
Known-without d a b k =
    All-append Known a b (All-append_left Known a (d ∷ b) k) (All-append_right Known a (d ∷ b) k).1

pub Known-within : (d : ℕ) (a b : List ℕ) → All Known (a ++ d ∷ b) → Known d
Known-within d a b k = (All-append_right Known a (d ∷ b) k).0

pub Known-last : (d : ℕ) (a : List ℕ) → All Known a → Known d → All Known (a ++ d ∷ [])
Known-last d a k h = All-append Known a (d ∷ []) k (h, tt)

-- Only the counts matter.
pub recount :
    (u : UringGateway) (xs ys : List ℕ)
    → ((x : ℕ) → count x ys ≡ count x xs)
    → All Known ys
    → IsUring u xs
    → IsUring u ys
recount u xs ys same k v = record {
  routing = v.routing;
  live = v.live;
  pool = v.pool;
  accepts = same _ ∙ v.accepts;
  receives = λ fd h. same _ ∙ v.receives fd h;
  sends = λ slot h. same _ ∙ v.sends slot h;
  known = k;
  fds = v.fds;
}

-- The trace does not matter.
pub retrace :
    (u : UringGateway) (t : List Effect) (xs : List ℕ)
    → IsUring u xs
    → IsUring (record u { trace = t }) xs
retrace u t xs v = record {
  routing = v.routing;
  live = v.live;
  pool = v.pool;
  accepts = v.accepts;
  receives = v.receives;
  sends = v.sends;
  known = v.known;
  fds = v.fds;
}

-- Tags of two operations, or of two payloads, are apart.
pub tag-ne :
    (op op' x y : ℕ)
    → op < 2 ^ 8
    → op' < 2 ^ 8
    → x < 2 ^ 56
    → y < 2 ^ 56
    → (op ≢ op') ⊎ (x ≢ y)
    → (tag op x == tag op' y) ≡ false
tag-ne op op' x y ho ho' hx hy (inl n) = ground (arith, n, tag-sum op x ho hx, tag-sum op' y ho' hy)
tag-ne op op' x y ho ho' hx hy (inr n) = ground (arith, n, tag-sum op x ho hx, tag-sum op' y ho' hy)

prepared-append : (es fs : List Effect) → prepared (es ++ fs) ≡ prepared es ++ prepared fs
unfolding prepared
prepared-append [] fs = refl
prepared-append (prep r d ∷ es) fs = ap (λ (xs : List ℕ). d ∷ xs) (prepared-append es fs)
prepared-append (submit ∷ es) fs = prepared-append es fs
prepared-append (send_now fd bs ∷ es) fs = prepared-append es fs
prepared-append (queue_exit ∷ es) fs = prepared-append es fs
prepared-append (wait_cqe s ns ∷ es) fs = prepared-append es fs
prepared-append (cq_advance n ∷ es) fs = prepared-append es fs
prepared-append (set_nodelay fd ∷ es) fs = prepared-append es fs
prepared-append (close fd ∷ es) fs = prepared-append es fs

-- `u'` has prepared the entries `ds` since `u`.
abbrev pub Added : List ℕ → UringGateway → UringGateway → Type 0
Added ds u u' = prepared u'.trace ≡ prepared u.trace ++ ds

pub then_added :
    (ds es : List ℕ) (u u' u'' : UringGateway)
    → Added ds u u'
    → Added es u' u''
    → Added (ds ++ es) u u''
then_added ds es u u' u'' p q =
    q ∙ ap (λ (xs : List ℕ). xs ++ es) p ∙ append_assoc (prepared u.trace) ds es

pub none_added : (u : UringGateway) → Added [] u u
none_added u = sym (append-nil _)

drop-front : (xs ys : List ℕ) → drop (length xs) (xs ++ ys) ≡ ys
drop-front [] ys = refl
drop-front (x ∷ xs) ys = drop-front xs ys

pub Added-since : (ds : List ℕ) (u u' : UringGateway) → Added ds u u' → entries_since u u' ≡ ds
Added-since ds u u' p = ap (drop (length (prepared u.trace))) p ∙ drop-front (prepared u.trace) ds

pub call-Added : (e : Effect) (u : UringGateway) → Added (prepared (e ∷ [])) u (call e u)
call-Added e u = prepared-append u.trace (e ∷ [])

-- Getting an entry changes the trace alone, and prepares nothing.
pub submit_all-trace :
    (n : ℕ) (u : UringGateway)
    → (t : List Effect) × (submit_all n u ≡ record u { trace = t })
      × (prepared t ≡ prepared u.trace ++ [])
unfolding submit_all prepared
submit_all-trace zero u = (u.trace, refl, sym (append-nil _))
submit_all-trace (suc n) u =
    let r = submit_all-trace n (call submit u) in
    (r.0, r.1, r.2 ∙ append-nil _ ∙ prepared-append u.trace (submit ∷ []))
