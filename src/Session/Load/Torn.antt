-- ===== src/Session/Load/Torn.antt =====
-- `Load` of a file of whole lines, alone and with a record behind that may be cut.
use mathlib.Core.Path.{subst}
use notch.Prelude.{
  ℕ, zero, suc, ◌-◌, ◌≡◌, refl, sym, ap, ap₂, ◌∙◌, append_assoc, true, false, not, [], ◌∷◌, ◌++◌,
  arith, ◌==◌, length, drop, get_or, All-take, length-append, take-append_exact, drop-append_exact,
}
use notch.Go.Bytes.{Bytes}
use notch.Go.Space.{trim_space}
use notch.Go.Space.Braces.{trim_space-brace}
use notch.Go.Json.{valid, is_json_space, run}
use notch.Go.Json.Prefix.{valid-cut}
use notch.Session.{ok, Codec, Loaded}
use notch.Session.Decode.{replay, decode, repaired, and_then}
use notch.Session.Decode.Lines.{NoNewline, Terminated}
use notch.Session.Decode.Records.{IsObjectLine, Decodes, trim_space-body, replay-body}
use notch.Session.Load.{
  final_record_start, is_unterminated, with_recovery, read_recoverable_session, recovered, load,
}
use notch.Session.Load.Start.{final_record_start_lem}

last_byte : (t : Bytes) (x n : ℕ) → suc n ≡ length (t ++ x ∷ []) → get_or (t ++ x ∷ []) n 0 ≡ x
last_byte [] x zero h = refl
last_byte [] x (suc n) h = absurd (omega arith)
last_byte (c ∷ t) x zero h = absurd (omega (arith, length-append t (x ∷ [])))
last_byte (c ∷ t) x (suc n) h = last_byte t x n (omega arith)

-- Whether the file ends with a newline is told by its last byte.
ends_with : (t : Bytes) (x : ℕ) → is_unterminated (t ++ x ∷ []) ≡ not (x == 10)
unfolding is_unterminated
ends_with t x =
    let size = length-append t (x ∷ []) in
    let filled : (length (t ++ x ∷ []) == 0) ≡ false = ground (arith, size) in
    rw (filled, last_byte t x (length (t ++ x ∷ []) - 1) (omega (arith, size))) refl

split_last :
    (c : ℕ) (p : Bytes)
    → NoNewline (c ∷ p)
    → (t : Bytes) × (x : ℕ) × (c ∷ p ≡ t ++ x ∷ []) × ((x == 10) ≡ false)
split_last c [] (n, h) = ([], c, refl, n)
split_last c (d ∷ p) (n, h) =
    let (t, x, e, m) = split_last d p h in (c ∷ t, x, ap (λ k. c ∷ k) e, m)

unterminated_after : (s p : Bytes) (c : ℕ) → NoNewline (c ∷ p) → is_unterminated (s ++ c ∷ p) ≡ true
unterminated_after s p c h =
    let (t, x, e, n) = split_last c p h in
    ap (λ k. is_unterminated (s ++ k)) e
    ∙ ap is_unterminated (sym (append_assoc s t (x ∷ [])))
    ∙ ends_with (s ++ t) x
    ∙ ap not n

complete : (s : Bytes) → Terminated s → is_unterminated s ≡ false
complete s (t, e) = ap is_unterminated e ∙ ends_with t 10

-- Where a text that ends with `x` is cut in front of it.
pub last_split :
    (inner a q : Bytes) (x y : ℕ)
    → inner ++ x ∷ [] ≡ a ++ y ∷ q
    → (q' : Bytes) × (y ∷ q ≡ q' ++ x ∷ []) × (inner ≡ a ++ q')
last_split inner [] q x y e = (inner, sym e, refl)
last_split [] (c ∷ a) q x y e = absurd (omega (arith, length-append a (y ∷ q), ap length e))
last_split (d ∷ inner) (c ∷ a) q x y e =
    let (q', last, rest) = last_split inner a q x y (ap (drop 1) e) in
    let head : d ≡ c = ap (λ s. get_or s 0 0) e in (q', last, ap₂ (λ k ks. k ∷ ks) head rest)

prefix_not_valid :
    (u t p q : Bytes)
    → (u ++ t ≡ b'{' ∷ p) × (valid (b'{' ∷ (p ++ (q ++ b'}' ∷ []))) ≡ true)
    → valid u ≡ false
prefix_not_valid [] t p q h = unfold valid run in refl
prefix_not_valid (x ∷ u) t p q (e, json) =
    let head : b'{' ≡ x = ap (λ s. get_or s 0 0) (sym e) in
    let tail : u ++ t ≡ p = ap (drop 1) e in
    let end = b'}' ∷ [] in
    let parts : (u ++ (t ++ q)) ++ end ≡ p ++ (q ++ end) =
      append_assoc u (t ++ q) end
      ∙ ap (λ k. u ++ k) (append_assoc t q end)
      ∙ sym (append_assoc u t (q ++ end))
      ∙ ap (λ k. k ++ (q ++ end)) tail in
    subst (λ y. valid (y ∷ u) ≡ false) head
      (valid-cut u (t ++ q) b'}' (unfold is_json_space in refl)
        (ap (λ k. valid (b'{' ∷ k)) parts ∙ json))

-- A cut object is no valid JSON, whatever spaces end it.
pub torn_not_valid :
    (p q body : Bytes) (c d : ℕ)
    → IsObjectLine body
    → body ≡ (c ∷ p) ++ d ∷ q
    → valid (trim_space (c ∷ p)) ≡ false
torn_not_valid p q body c d ((inner, e), _, json) split =
    let head : b'{' ≡ c = ap (λ s. get_or s 0 0) (sym e ∙ split) in
    let tails : inner ++ b'}' ∷ [] ≡ p ++ d ∷ q = ap (drop 1) (sym e ∙ split) in
    let (q', last, _) = last_split inner p q b'}' d tails in
    let (t, trimmed) = trim_space-brace p in
    let whole : valid (b'{' ∷ (inner ++ b'}' ∷ [])) ≡ true = ap valid (sym e) ∙ json in
    subst (λ x. valid (trim_space (x ∷ p)) ≡ false) head
      (prefix_not_valid (trim_space (b'{' ∷ p)) t p q'
        (trimmed, ap (λ k. valid (b'{' ∷ k)) (ap (λ k. p ++ k) (sym last) ∙ sym tails) ∙ whole))

-- The last record of a file behind whole lines.
start_of_tail : (s p : Bytes) → Terminated s → NoNewline p → final_record_start (s ++ p) ≡ length s
start_of_tail s p (t, e) h =
    ap (λ k. final_record_start (k ++ p)) e
    ∙ (final_record_start_lem t p h).0
    ∙ (let size : suc (length t) ≡ length (t ++ 10 ∷ []) =
          omega (arith, length-append t (10 ∷ [])) in
        size)
    ∙ ap length (sym e)

decode-replay :
    (c : Codec) (s : Bytes) (st : Loaded) → replay c s ≡ ok st → decode c s ≡ ok (repaired st)
unfolding decode and_then
decode-replay c s st h = rw h refl

pub load_complete :
    (c : Codec) (s : Bytes) (st : Loaded)
    → Terminated s
    → replay c s ≡ ok st
    → load c s ≡ ok (repaired st, s)
unfolding load read_recoverable_session recovered with_recovery
load_complete c s st ended h =
    rw (load, read_recoverable_session, complete s ended, decode-replay c s st h) refl

-- For a file of whole lines that replays to a conversation, with a first part, not all, of a
-- JSON object on one line behind it: `Load` returns the conversation, repaired, and cuts the
-- part off.
pub load_torn :
    (c : Codec) (s p q body : Bytes) (x y : ℕ) (st : Loaded)
    → Terminated s
    → replay c s ≡ ok st
    → IsObjectLine body
    → body ≡ (x ∷ p) ++ y ∷ q
    → load c (s ++ x ∷ p) ≡ ok (repaired st, s)
unfolding load read_recoverable_session recovered with_recovery
load_torn c s p q body x y st ended h object split =
    let plain : NoNewline (x ∷ p) =
      subst NoNewline (take-append_exact (x ∷ p) (y ∷ q))
        (All-take _ (length (x ∷ p)) ((x ∷ p) ++ y ∷ q) (subst NoNewline split (object.1))) in
    rw
      (
        load,
        read_recoverable_session,
        unterminated_after s p x plain,
        start_of_tail s (x ∷ p) ended plain,
        drop-append_exact s (x ∷ p),
        torn_not_valid p q body x y object split,
        ap (decode c) (take-append_exact s (x ∷ p)) ∙ decode-replay c s st h,
      )
      (ap (λ k. ok (repaired st, k)) (take-append_exact s (x ∷ p)))

unterminated_body : (s body : Bytes) → IsObjectLine body → is_unterminated (s ++ body) ≡ true
unterminated_body s [] ((inner, e), _, _) = absurd (cc e)
unterminated_body s (x ∷ p) (_, h, _) = unterminated_after s p x h

pub load_no_newline :
    (c : Codec) (s body : Bytes) (f : Loaded → Loaded) (st : Loaded)
    → Terminated s
    → replay c s ≡ ok st
    → IsObjectLine body
    → Decodes c body f
    → load c (s ++ body) ≡ ok (repaired (f st), (s ++ body) ++ 10 ∷ [])
unfolding load read_recoverable_session recovered with_recovery
load_no_newline c s body f st ended h object reads =
    rw
      (
        load,
        read_recoverable_session,
        unterminated_body s body object,
        start_of_tail s body ended (object.1),
        drop-append_exact s body,
        trim_space-body body object,
        object.2,
        decode-replay c (s ++ body) (f st) (replay-body c s body f st ended h object reads),
      )
      refl
