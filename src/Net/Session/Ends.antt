-- ===== src/Net/Session/Ends.antt =====
-- `consume` of include/lx/net/session.hpp ends: every frame it takes is one of the bytes received.
use lite_exchange.Base.{
  ℕ, zero, suc, ◌+◌, ◌*◌, ◌≤◌, ◌<◌, ◌≡◌, refl, ◌∙◌, ap, inl, inr, arith, Bool, true, false,
  if◌then◌else◌, Bool-cases, [], ◌++◌, length, take, drop, length-append, take-drop, length-drop,
}
use mathlib.Core.List.{append_assoc}
use lite_exchange.Proto.Messages.{MsgType, InboundMsg}
use lite_exchange.Proto.Codec.{Bytes, DecodeResult, try_decode}
use lite_exchange.Net.Session.{
  Session, Consumed, Forward, skip, send, forward, consume_loop, consume,
}

-- A frame that decodes has at least the bytes of a header, and is all there.
pub try_decode-ok :
    (buf : Bytes) (type : MsgType) (len : ℕ)
    → try_decode buf ≡ DecodeResult.ok type len
    → (8 ≤ len) × (len ≤ length buf)
unfolding try_decode
try_decode-ok buf type len e = ground (arith, e)

module _ {ℓ} {Q : Type ℓ} (push : InboundMsg → Q → Bool × Q) where
  -- What the loop leaves of the bytes: `frames` were taken, each of at least 8 bytes.
  pub record Ends (bytes : Bytes) (count : ℕ) (r : Consumed Q) : Type 0 where
    pub frames : Bytes
    pub split : frames ++ r.rest ≡ bytes
    pub counted : 8 * r.count ≤ 8 * count + length frames
    pub ended : r.stuck ≡ false

  none_taken :
      (bytes : Bytes) (bad : Bool) (count : ℕ) (q : Q)
      → Ends bytes count
          (record { rest = bytes; invalid = bad; count = count; sink = q; stuck = false })
  none_taken bytes bad count q = record {
    frames = [];
    split = refl;
    counted = omega arith;
    ended = refl;
  }

  one_taken :
      (bytes : Bytes) (type : MsgType) (len count : ℕ) {r : Consumed Q}
      → try_decode bytes ≡ DecodeResult.ok type len
      → Ends (drop len bytes) (count + 1) r
      → Ends bytes count r
  one_taken bytes type len count e s = record {
    frames = take len bytes ++ s.frames;
    split =
        append_assoc (take len bytes) s.frames _
        ∙ ap (λ (ys : Bytes). take len bytes ++ ys) s.split
        ∙ take-drop len bytes;
    counted = omega (
      arith,
      s.counted,
      length-append (take len bytes) s.frames,
      length-append (take len bytes) (drop len bytes),
      ap length (take-drop len bytes),
      length-drop len bytes,
      try_decode-ok bytes type len e,
    );
    ended = s.ended;
  }

  pub consume_loop-Ends :
      (fuel sid : ℕ) (bytes : Bytes) (count : ℕ) (q : Q)
      → length bytes < fuel
      → Ends bytes count (consume_loop push fuel sid bytes count q)
  unfolding consume_loop
  consume_loop-Ends zero sid bytes count q h = absurd (omega arith)
  consume_loop-Ends (suc fuel) sid bytes count q h =
      by_frame (try_decode bytes) refl (consume_loop-Ends fuel sid)
    where
      Later : Type ℓ
      Later =
          (bytes : Bytes) (count : ℕ) (q : Q)
          → length bytes < fuel
          → Ends bytes count (consume_loop push fuel sid bytes count q)

      shorter :
          (type : MsgType) (len : ℕ)
          → try_decode bytes ≡ DecodeResult.ok type len
          → length (drop len bytes) < fuel
      shorter type len e = omega (arith, length-drop len bytes, try_decode-ok bytes type len e)

      by_frame :
          (r : DecodeResult)
          → try_decode bytes ≡ r
          → Later
          → Ends bytes count (consume_loop push (suc fuel) sid bytes count q)
      by_frame DecodeResult.need_more e later =
          rw (consume_loop, e) (none_taken bytes false count q)
      by_frame DecodeResult.invalid e later = rw (consume_loop, e) (none_taken bytes true count q)
      by_frame (DecodeResult.ok type len) e later =
          rw (consume_loop, e) (by_kind (forward sid type len bytes) refl)
        where
          by_kind :
              (f : Forward)
              → forward sid type len bytes ≡ f
              → Ends bytes count (elim (forward sid type len bytes) [
                | skip ↦ consume_loop push fuel sid (drop len bytes) (count + 1) q
                | send m ↦
                    let (taken, q') = push m q in
                    let rest = consume_loop push fuel sid (drop len bytes) (count + 1) q' in
                    if taken then rest else record {
                      rest = bytes;
                      invalid = false;
                      count = count;
                      sink = q';
                      stuck = false;
                    }
              ])
          by_kind skip k =
              rw k (one_taken bytes type len count e (later _ _ q (shorter type len e)))
          by_kind (send m) k = rw k (elim (Bool-cases (push m q).0) [
            | inl taken ↦
                rw taken
                  (one_taken bytes type len count e (later _ _ (push m q).1 (shorter type len e)))
            | inr full ↦ rw full (none_taken bytes false count (push m q).1)
          ])

  -- `consume` counts at most a frame for every 8 bytes received, and what it leaves in the buffer is the
  -- end of what was there.
  consume-split :
      (s : Session) (q : Q)
      → let (count, s', q') = consume push s q in
        (frames : Bytes) × (frames ++ s'.recv_buf ≡ s.recv_buf) × (8 * count ≤ length frames)
  unfolding consume
  consume-split s q = elim (Bool-cases s.closed) [
    | inl closed ↦ rw closed ([], refl, omega arith)
    | inr serving ↦
        let r =
          consume_loop-Ends (suc (length s.recv_buf)) s.session_id s.recv_buf 0 q (omega arith) in
        rw serving (r.frames, r.split, omega (arith, r.counted))
  ]

  -- The session keeps its id.
  pub consume-session_id : (s : Session) (q : Q) → (consume push s q).1.session_id ≡ s.session_id
  unfolding consume
  consume-session_id s q = elim (Bool-cases s.closed) [
    | inl closed ↦ rw closed refl
    | inr serving ↦ rw serving refl
  ]
