-- ===== src/Agent/Retry/Calls.antt =====
-- The calls of a provider that one request makes.
use mathlib.Core.Path.{subst}
use notch.Prelude.{
  ℕ, zero, suc, ◌+◌, ◌-◌, ◌<◌, ◌≤◌, ◌≡◌, refl, ap, ◌∙◌, Bool, true, false, not, ◌||◌, Option, none,
  some, List, [], ◌∷◌, ◌++◌, leb, ◌==◌, length, arith, if_split, Bool-cases, dec_lt, inl, inr,
}
use Prim.Native.Nat.{max}
use notch.Prelude.Int.{ℤ}
use notch.Go.Bytes.{Bytes}
use notch.Model.ProviderError.{GoError, retry_info}
use notch.Agent.Retry.{
  RetryConfig, Answer, answered, failed, Call, StreamResult, response, stream_error, context_done,
  panicked, Streamed, forwarded, last_call, first_call, pause, after_call, stream_with_retry_mode,
  stream_with_retry,
}

goes_on : (p q r : Bool) → (not p || q || r) ≡ false → (p ≡ true) × (q ≡ false) × (r ≡ false)
goes_on p q r h = ground arith

nothing_emitted : (xs : List Bytes) → not (length xs == 0) ≡ false → xs ≡ []
nothing_emitted [] h = refl
nothing_emitted (x ∷ xs) h = absurd (ground arith)

below : (a b : ℕ) → leb a b ≡ false → b < a
below a b h = ground arith

module _ {R : Type 0} where
  -- The call gave no output, and failed with an error that may pass.
  abbrev pub IsRetried : (Bytes → Bytes) → Call R → Type 0
  IsRetried to_lower call =
      (call.deltas ≡ [])
      × (e : GoError) × (call.answer ≡ failed e)
      × ((retry_info to_lower e).0 ≡ true)

  -- The result is that of the call, or the context ended behind it, or the delay panicked.
  abbrev pub Ends : Call R → StreamResult R → Type 0
  Ends call (response r) = call.answer ≡ answered r
  Ends call (stream_error e) = call.answer ≡ failed e
  Ends call context_done = call.canceled ≡ true
  Ends call panicked = Unit

module _ {R : Type 0} (c : RetryConfig) (to_lower : Bytes → Bytes) (forward_output : Bool)
    (calls : ℕ → Call R) where
  -- From the attempt on.
  pub record IsStreamed (attempt : ℕ) (s : Streamed R) : Type 0 where
    pub some_call : 1 ≤ s.calls
    pub bounded : attempt + s.calls ≤ suc (max c.max_attempts attempt)
    pub last_output : s.output ≡ forwarded forward_output (calls (attempt + s.calls - 1))
    pub last_result : Ends (calls (attempt + s.calls - 1)) s.result
    pub others : (i : ℕ) → attempt ≤ i → suc i < attempt + s.calls → IsRetried to_lower (calls i)

  abbrev Finds : ℕ → Option (Streamed R) → Type 0
  Finds attempt o = (s : Streamed R) × (o ≡ some s) × IsStreamed attempt s

  last_call-Finds :
      (attempt : ℕ) (delays : List ℤ) (result : StreamResult R)
      → Ends (calls attempt) result
      → Finds attempt (last_call forward_output (calls attempt) delays result)
  last_call-Finds attempt delays result end = (
    _,
    refl,
    record {
      some_call = omega arith;
      bounded = omega arith;
      last_output = ap (λ k. forwarded forward_output (calls k)) (omega arith);
      last_result = subst (λ k. Ends (calls k) result) (omega arith) end;
      others = λ i h k. absurd (omega arith);
    },
  )

  silent : (call : Call R) → call.deltas ≡ [] → forwarded forward_output call ≡ []
  silent call e = elim (Bool-cases forward_output) [ inl t ↦ rw t e | inr t ↦ rw t refl ]

  first_call-Finds :
      (attempt : ℕ) (delay : ℤ) (o : Option (Streamed R))
      → attempt < c.max_attempts
      → IsRetried to_lower (calls attempt)
      → Finds (suc attempt) o
      → Finds attempt (first_call forward_output (calls attempt) delay o)
  first_call-Finds attempt delay o h tried (s, e, found) = (
    _,
    ap (first_call forward_output (calls attempt) delay) e,
    record {
      some_call = omega arith;
      bounded = omega (arith, found.bounded);
      last_output =
          ap (λ out. out ++ s.output) (silent (calls attempt) tried.0)
          ∙ found.last_output
          ∙ ap (λ k. forwarded forward_output (calls k)) (omega arith);
      last_result = subst (λ k. Ends (calls k) s.result) (omega arith) found.last_result;
      others = λ i low high. elim (dec_lt attempt i) [
        | yes lt ↦ found.others i lt (omega arith)
        | no ge ↦ subst (λ k. IsRetried to_lower (calls k)) (omega arith) tried
      ];
    },
  )

  pause-Finds :
      (attempt : ℕ) (delay : Option ℤ) (rest : Option (Streamed R))
      → attempt < c.max_attempts
      → IsRetried to_lower (calls attempt)
      → Finds (suc attempt) rest
      → Finds attempt (pause forward_output (calls attempt) delay rest)
  unfolding pause
  pause-Finds attempt none rest h tried found = last_call-Finds attempt [] panicked tt
  pause-Finds attempt (some delay) rest h tried found =
      if_split (Finds attempt) (calls attempt).canceled _ _
        (λ done. last_call-Finds attempt (delay ∷ []) context_done done)
        (λ _. first_call-Finds attempt delay rest h tried found)

  after_call-Finds :
      (attempt : ℕ) (answer : Answer R) (rest : Option (Streamed R))
      → (calls attempt).answer ≡ answer
      → (attempt < c.max_attempts → Finds (suc attempt) rest)
      → Finds attempt (after_call c to_lower forward_output attempt (calls attempt) answer rest)
  unfolding after_call
  after_call-Finds attempt (answered r) rest e found = last_call-Finds attempt [] (response r) e
  after_call-Finds attempt (failed err) rest e found =
      let emitted = not (length (calls attempt).deltas == 0) in
      if_split (Finds attempt)
        (not (retry_info to_lower err).0 || emitted || leb c.max_attempts attempt) _ _
        (λ _. last_call-Finds attempt [] (stream_error err) e)
        (λ t.
          let (passing, silent, more) =
            goes_on (retry_info to_lower err).0 emitted (leb c.max_attempts attempt) t in
          let h = below c.max_attempts attempt more in
          pause-Finds attempt _ rest h
            (nothing_emitted (calls attempt).deltas silent, err, e, passing) (found h))

  stream-Finds :
      (fuel attempt : ℕ)
      → suc c.max_attempts ≤ fuel + attempt
      → 0 < fuel
      → Finds attempt (stream_with_retry_mode c to_lower forward_output calls fuel attempt)
  unfolding stream_with_retry_mode
  stream-Finds zero attempt h more = absurd (omega arith)
  stream-Finds (suc fuel) attempt h more =
      after_call-Finds attempt (calls attempt).answer _ refl
        (λ next. stream-Finds fuel (suc attempt) (omega arith) (omega arith))

-- Where the attempts are at least 1, a request makes at least 1 call of the provider and no more
-- than MaxAttempts, and ends. Its result is that of the last call, unless the context ends or
-- the delay panics behind it; what is emitted is the output of the last call alone; and each
-- call before it gave no output and failed with an error that may pass.
pub stream_with_retry_lem :
    {R : Type 0} (c : RetryConfig) (to_lower : Bytes → Bytes) (calls : ℕ → Call R)
    → 1 ≤ c.max_attempts
    → (s : Streamed R) × (stream_with_retry c to_lower calls ≡ some s)
      × (1 ≤ s.calls)
      × (s.calls ≤ c.max_attempts)
      × (s.output ≡ (calls s.calls).deltas)
      × Ends (calls s.calls) s.result
      × ((i : ℕ) → 1 ≤ i → i < s.calls → IsRetried to_lower (calls i))
unfolding stream_with_retry
stream_with_retry_lem c to_lower calls h =
    let (s, e, found) =
      stream-Finds c to_lower true calls (suc c.max_attempts) 1 (omega arith) (omega arith) in
    (
      s,
      e,
      found.some_call,
      omega (arith, found.bounded),
      found.last_output ∙ ap (λ k. (calls k).deltas) (omega arith),
      subst (λ k. Ends (calls k) s.result) (omega arith) found.last_result,
      λ i low high. found.others i low (omega arith),
    )
