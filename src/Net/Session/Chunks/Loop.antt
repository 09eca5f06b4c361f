-- ===== src/Net/Session/Chunks/Loop.antt =====
-- The loop of `consume` in include/lx/net/session.hpp, with more fuel, more bytes and another count.
use lite_exchange.Base.{
  ℕ, zero, suc, ◌+◌, ◌≤◌, ◌<◌, ◌≡◌, refl, sym, ◌∙◌, ap, ◌⊎◌, inl, inr, arith, Bool, true, false,
  if◌then◌else◌, Bool-cases, ◌++◌, length, drop, length-append, length-drop,
}
use lite_exchange.Proto.Messages.{MsgType, InboundMsg}
use lite_exchange.Proto.Codec.{Bytes, DecodeResult, try_decode}
use lite_exchange.Net.Session.{Consumed, Forward, skip, send, forward, consume_loop}
use lite_exchange.Net.Session.Ends.{try_decode-ok, consume_loop-Ends}
use lite_exchange.Net.Session.Chunks.Buffers.{drop-append, decided, forward-append}

pub Forward-cases : (k : Forward) → (k ≡ skip) ⊎ ((m : InboundMsg) × (k ≡ send m))
Forward-cases skip = inl refl
Forward-cases (send m) = inr (m, refl)

pub DecodeResult-cases :
    (r : DecodeResult)
    → (r ≡ DecodeResult.need_more)
      ⊎ ((r ≡ DecodeResult.invalid)
          ⊎ ((type : MsgType) × (len : ℕ) × (r ≡ DecodeResult.ok type len)))
DecodeResult-cases DecodeResult.need_more = inl refl
DecodeResult-cases DecodeResult.invalid = inr (inl refl)
DecodeResult-cases (DecodeResult.ok type len) = inr (inr (type, len, refl))

module _ {ℓ} {Q : Type ℓ} (push : InboundMsg → Q → Bool × Q)
    (takes : (m : InboundMsg) (q : Q) → (push m q).0 ≡ true) where
  -- The sink after a frame.
  unfoldable pub fed : ℕ → MsgType → ℕ → Bytes → Q → Q
  fed sid type len xs q = elim (forward sid type len xs) [ skip ↦ q | send m ↦ (push m q).1 ]

  unfoldable pub stopped : Bytes → Bool → ℕ → Q → Consumed Q
  stopped xs bad count q = record {
    rest = xs;
    invalid = bad;
    count = count;
    sink = q;
    stuck = false;
  }

  loop-need_more :
      (f sid : ℕ) (xs : Bytes) (count : ℕ) (q : Q)
      → try_decode xs ≡ DecodeResult.need_more
      → consume_loop push (suc f) sid xs count q ≡ stopped xs false count q
  unfolding consume_loop stopped
  loop-need_more f sid xs count q e = rw (e, consume_loop) refl

  loop-invalid :
      (f sid : ℕ) (xs : Bytes) (count : ℕ) (q : Q)
      → try_decode xs ≡ DecodeResult.invalid
      → consume_loop push (suc f) sid xs count q ≡ stopped xs true count q
  unfolding consume_loop stopped
  loop-invalid f sid xs count q e = rw (e, consume_loop) refl

  loop-ok :
      (f sid : ℕ) (xs : Bytes) (count : ℕ) (q : Q) (type : MsgType) (len : ℕ)
      → try_decode xs ≡ DecodeResult.ok type len
      → consume_loop push (suc f) sid xs count q
        ≡ consume_loop push f sid (drop len xs) (count + 1) (fed sid type len xs q)
  unfolding consume_loop fed
  loop-ok f sid xs count q type len e = elim (Forward-cases (forward sid type len xs)) [
    | inl h ↦ rw (e, consume_loop, h, fed) refl
    | inr (m, h) ↦ rw (e, consume_loop, h, fed) (rw (takes m q) refl)
  ]

  -- Fuel above the number of bytes adds nothing.
  pub loop-fuel :
      (f g sid : ℕ) (xs : Bytes) (count : ℕ) (q : Q)
      → length xs < f
      → length xs < g
      → consume_loop push f sid xs count q ≡ consume_loop push g sid xs count q
  loop-fuel zero g sid xs count q h k = absurd (omega arith)
  loop-fuel (suc f) zero sid xs count q h k = absurd (omega arith)
  loop-fuel (suc f) (suc g) sid xs count q h k = elim (DecodeResult-cases (try_decode xs)) [
    | inl e ↦ loop-need_more f sid xs count q e ∙ sym (loop-need_more g sid xs count q e)
    | inr (inl e) ↦ loop-invalid f sid xs count q e ∙ sym (loop-invalid g sid xs count q e)
    | inr (inr (type, len, e)) ↦
        let size = length-drop len xs in
        let ok = try_decode-ok xs type len e in
        loop-ok f sid xs count q type len e
        ∙ loop-fuel f g sid (drop len xs) (count + 1) (fed sid type len xs q)
            (omega (arith, size, ok)) (omega (arith, size, ok))
        ∙ sym (loop-ok g sid xs count q type len e)
  ]

  -- How the loop goes on with more bytes, after it stopped for want of them or at an invalid frame.
  unfoldable pub resumed : ℕ → ℕ → Bytes → Consumed Q → Consumed Q
  resumed g sid ys r =
      if r.invalid
      then stopped (r.rest ++ ys) true r.count r.sink
      else consume_loop push g sid (r.rest ++ ys) r.count r.sink

  resumed-fuel :
      (f g sid : ℕ) (xs ys : Bytes) (count : ℕ) (q : Q)
      → length xs < f
      → length xs + length ys < g
      → let r = consume_loop push f sid xs count q in resumed g sid ys r ≡ resumed (suc g) sid ys r
  unfolding resumed stopped
  resumed-fuel f g sid xs ys count q h k = elim (Bool-cases r.invalid) [
    | inl bad ↦ rw bad refl
    | inr good ↦
        rw good (loop-fuel g (suc g) sid (r.rest ++ ys) r.count r.sink size (omega (arith, size)))
  ]
    where
      r : Consumed Q
      r = consume_loop push f sid xs count q

      size : length (r.rest ++ ys) < g
      size =
          let ends = consume_loop-Ends push f sid xs count q h in
          omega
            (arith, length-append r.rest ys, length-append ends.frames r.rest, ap length ends.split)

  fed-append :
      (sid : ℕ) (type : MsgType) (len : ℕ) (xs ys : Bytes) (q : Q)
      → len ≤ length xs
      → fed sid type len (xs ++ ys) q ≡ fed sid type len xs q
  unfolding fed
  fed-append sid type len xs ys q h =
      ap (λ (k : Forward). elim k as (λ _. Q) [ skip ↦ q | send m ↦ (push m q).1 ])
        (forward-append sid type len xs ys h)

  pub loop-append :
      (f g sid : ℕ) (xs ys : Bytes) (count : ℕ) (q : Q)
      → length xs < f
      → length (xs ++ ys) < g
      → consume_loop push g sid (xs ++ ys) count q
        ≡ resumed g sid ys (consume_loop push f sid xs count q)
  unfolding resumed stopped
  loop-append zero g sid xs ys count q h k = absurd (omega arith)
  loop-append (suc f) zero sid xs ys count q h k = absurd (omega arith)
  loop-append (suc f) (suc g) sid xs ys count q h k = elim (DecodeResult-cases (try_decode xs)) [
    | inl e ↦ rw (loop-need_more f sid xs count q e) refl
    | inr (inl e) ↦
        rw (loop-invalid f sid xs count q e)
          (loop-invalid g sid (xs ++ ys) count q (decided xs ys (λ n. cc) ∙ e))
    | inr (inr (type, len, e)) ↦
        let ok = try_decode-ok xs type len e in
        let size = length-drop len xs in
        let q' = fed sid type len xs q in
        loop-ok g sid (xs ++ ys) count q type len (decided xs ys (λ n. ground (arith, n, e)) ∙ e)
        ∙ ap
            (λ (zs : Bytes). consume_loop push g sid zs (count + 1) (fed sid type len (xs ++ ys) q))
            (drop-append len xs ys (omega (arith, ok)))
        ∙ ap (consume_loop push g sid (drop len xs ++ ys) (count + 1))
            (fed-append sid type len xs ys q (omega (arith, ok)))
        ∙ loop-append f g sid (drop len xs) ys (count + 1) q' (omega (arith, size, ok))
            (omega (arith, size, ok, length-append (drop len xs) ys, length-append xs ys))
        ∙ resumed-fuel f g sid (drop len xs) ys (count + 1) q' (omega (arith, size, ok))
            (omega (arith, size, ok, length-append xs ys))
        ∙ ap (resumed (suc g) sid ys) (sym (loop-ok f sid xs count q type len e))
  ]

  -- The frames counted before are added.
  unfoldable pub shifted : ℕ → Consumed Q → Consumed Q
  shifted c r = record r { count = c + r.count }

  pub loop-count :
      (f sid : ℕ) (xs : Bytes) (c d : ℕ) (q : Q)
      → consume_loop push f sid xs (c + d) q ≡ shifted c (consume_loop push f sid xs d q)
  unfolding shifted stopped consume_loop
  loop-count zero sid xs c d q = refl
  loop-count (suc f) sid xs c d q = elim (DecodeResult-cases (try_decode xs)) [
    | inl e ↦
        loop-need_more f sid xs (c + d) q e ∙ ap (shifted c) (sym (loop-need_more f sid xs d q e))
    | inr (inl e) ↦
        loop-invalid f sid xs (c + d) q e ∙ ap (shifted c) (sym (loop-invalid f sid xs d q e))
    | inr (inr (type, len, e)) ↦
        loop-ok f sid xs (c + d) q type len e
        ∙ ap (λ (n : ℕ). consume_loop push f sid (drop len xs) n (fed sid type len xs q))
            (omega arith)
        ∙ loop-count f sid (drop len xs) c (d + 1) (fed sid type len xs q)
        ∙ ap (shifted c) (sym (loop-ok f sid xs d q type len e))
  ]
