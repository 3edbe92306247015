-- ===== src/Agent/Queue/Kept.antt =====
-- The operations on the queues keep the order and the numbers.
use notch.Prelude.{
  ℕ, suc, ◌%◌, ◌^◌, ◌≡◌, ◌≢◌, refl, sym, ap, ap₂, ◌∙◌, Bool, true, false, List, [], ◌∷◌, ◌++◌,
  append-nil, append_assoc, if◌then◌else◌, length, length-append, arith, All-append,
}
use notch.Go.Bytes.{Bytes}
use notch.Agent.Queue.{
  Mode, steering, follow_up, automatic, QueuedMessage, Queues, next_sequence, queue_id, put_queued,
  admit,
}
use notch.Agent.Queue.Runs.{
  History, after_enqueue, same_mode, of_mode, pending, first_ids, ids_of, IsOf, IsKept,
}

of_mode-append :
    (m : Mode) (xs ys : List QueuedMessage) → of_mode m (xs ++ ys) ≡ of_mode m xs ++ of_mode m ys
of_mode-append m [] ys = refl
of_mode-append m (x ∷ xs) ys = ground (arith, of_mode-append m xs ys)

map-append : (xs ys : List QueuedMessage) → ids_of (xs ++ ys) ≡ ids_of xs ++ ids_of ys
map-append [] ys = refl
map-append (x ∷ xs) ys = ap (λ k. x.id ∷ k) (map-append xs ys)

next_sequence-counts : (n k : ℕ) → n ≡ k % 2 ^ 64 → next_sequence n ≡ suc k % 2 ^ 64
unfolding next_sequence
next_sequence-counts n k e = omega (arith, e)

module _ (x : QueuedMessage) (xs ds ps : List QueuedMessage) where
  joins_if :
      (b : Bool)
      → xs ≡ ds ++ ps
      → xs ++ (if b then x ∷ [] else []) ≡ ds ++ (if b then ps ++ x ∷ [] else ps)
  joins_if true e = rw e (append_assoc ds ps (x ∷ []))
  joins_if false e = append-nil xs ∙ e

  goes_if :
      (b : Bool)
      → xs ≡ ds ++ (if b then x ∷ ps else ps)
      → xs ≡ ds ++ (if b then x ∷ [] else []) ++ ps
  goes_if true e = e ∙ sym (append_assoc ds (x ∷ []) ps)
  goes_if false e = rw (append-nil ds) e

module _ (m : Mode) (xs ds ps : List QueuedMessage) where
  -- A message joins the end of the queue of its mode.
  joins :
      (x : QueuedMessage)
      → of_mode m xs ≡ of_mode m ds ++ ps
      → of_mode m (xs ++ x ∷ [])
        ≡ of_mode m (ds ++ []) ++ (if same_mode m x.mode then ps ++ x ∷ [] else ps)
  joins x e =
      rw (of_mode-append m xs (x ∷ []), append-nil ds)
        (joins_if x (of_mode m xs) (of_mode m ds) ps (same_mode m x.mode) e)

  -- The first message of a queue is delivered.
  pub goes :
      (x : QueuedMessage)
      → of_mode m xs ≡ of_mode m ds ++ (if same_mode m x.mode then x ∷ ps else ps)
      → of_mode m (xs ++ []) ≡ of_mode m (ds ++ x ∷ []) ++ ps
  goes x e =
      rw (append-nil xs, of_mode-append m ds (x ∷ []))
        (goes_if x (of_mode m xs) (of_mode m ds) ps (same_mode m x.mode) e)

  pub stays : of_mode m xs ≡ of_mode m ds ++ ps → of_mode m (xs ++ []) ≡ of_mode m (ds ++ []) ++ ps
  stays e = rw (append-nil xs, append-nil ds) e

length-snoc :
    (xs : List QueuedMessage) (x : QueuedMessage) → length (xs ++ x ∷ []) ≡ suc (length xs)
length-snoc xs x = omega (arith, length-append xs (x ∷ []))

snoc_ids :
    (xs : List QueuedMessage) (x : QueuedMessage)
    → ids_of xs ≡ first_ids (length xs)
    → x.id ≡ queue_id (suc (length xs) % 2 ^ 64)
    → ids_of (xs ++ x ∷ []) ≡ first_ids (length (xs ++ x ∷ []))
snoc_ids xs x e new =
    map-append xs (x ∷ []) ∙ ap₂ (λ k i. k ++ i ∷ []) e new ∙ sym (ap first_ids (length-snoc xs x))

pending-put_queued :
    (m mode : Mode) (n : ℕ) (x : QueuedMessage) (q : Queues)
    → mode ≢ automatic
    → pending m (put_queued mode x (record q { queue_sequence = n }))
      ≡ (if same_mode m mode then pending m q ++ x ∷ [] else pending m q)
unfolding put_queued
pending-put_queued m automatic n x q user = absurd (user refl)
pending-put_queued steering steering n x q user = refl
pending-put_queued steering follow_up n x q user = refl
pending-put_queued follow_up steering n x q user = refl
pending-put_queued follow_up follow_up n x q user = refl
pending-put_queued automatic steering n x q user = refl
pending-put_queued automatic follow_up n x q user = refl

-- A message is put at the end of the queue of its mode, under the next number.
module _ (mode : Mode) (text : Bytes) (q : Queues) (h : History) (k : IsKept q h) where
  admitted : QueuedMessage
  admitted = record { id = queue_id (next_sequence q.queue_sequence); mode = mode; text = text }

  admit-in_order :
      mode ≢ automatic
      → (m : Mode)
      → of_mode m (h.accepted ++ admitted ∷ [])
        ≡ of_mode m (h.delivered ++ []) ++ pending m ((admit mode text q).0).0
  unfolding admit admitted
  admit-in_order user m =
      joins m h.accepted h.delivered (pending m q) admitted (k.in_order m)
      ∙ ap (λ ps. of_mode m (h.delivered ++ []) ++ ps)
          (sym (pending-put_queued m mode (next_sequence q.queue_sequence) admitted q user))

  admit-numbered :
      ids_of (h.accepted ++ admitted ∷ []) ≡ first_ids (length (h.accepted ++ admitted ∷ []))
  unfolding admitted
  admit-numbered =
      snoc_ids h.accepted admitted k.numbered
        (ap queue_id (next_sequence-counts q.queue_sequence (length h.accepted) k.counted))

  admit-counted : next_sequence q.queue_sequence ≡ length (h.accepted ++ admitted ∷ []) % 2 ^ 64
  admit-counted =
      next_sequence-counts q.queue_sequence (length h.accepted) k.counted
      ∙ ap (λ n. n % 2 ^ 64) (sym (length-snoc h.accepted admitted))

pub admit-IsKept :
    (mode : Mode) (text : Bytes) (q : Queues) (h : History)
    → q.processing ≡ true
    → mode ≢ automatic
    → IsKept q h
    → IsKept ((admit mode text q).0).0 (after_enqueue (admit mode text q) h)
unfolding admit put_queued admitted
admit-IsKept steering text q h on user k =
    let q' = ((admit steering text q).0).0 in
    let x = admitted steering text q h k in
    record {
      in_order = admit-in_order steering text q h k user;
      numbered = admit-numbered steering text q h k;
      counted = admit-counted steering text q h k;
      listened = k.listened;
      steers = All-append (IsOf steering) q.steering (x ∷ []) k.steers (refl, tt);
      follows = k.follows;
    }
admit-IsKept follow_up text q h on user k =
    let q' = ((admit follow_up text q).0).0 in
    let x = admitted follow_up text q h k in
    record {
      in_order = admit-in_order follow_up text q h k user;
      numbered = admit-numbered follow_up text q h k;
      counted = admit-counted follow_up text q h k;
      listened = k.listened;
      steers = k.steers;
      follows = All-append (IsOf follow_up) q.follow_ups (x ∷ []) k.follows (refl, tt);
    }
admit-IsKept automatic text q h on user k = absurd (user refl)
