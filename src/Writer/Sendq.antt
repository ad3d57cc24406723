-- ===== src/Writer/Sendq.antt =====
-- What the writer task of src/client/mod.rs does with the messages it is sent, in any order of the
-- two queues.
use mathlib.Core.List
use clandestine.Prelude.{
  String, Bool, true, false, List, [], ◌∷◌, ◌++◌, ◌≡◌, refl, sym, ap, ◌∙◌, subst, arith, leb,
  if◌then◌else◌, Bool-cases, inl, inr,
}
use Prim.Native.String.{len}
use clandestine.Writer.{
  Writer, max_sendq, write_immediate, write_queued, Round, immediate, queued, immediate_closed,
  queued_closed,
}

-- Rounds of the task, and messages that are sent to it meanwhile: those for immediate writing and
-- the queued ones; or the end of the client object.
pub data Steps (s : Writer) : List String → List String → Writer → Type 0 where
  start : Steps s [] [] s
  round : {xs ys : List String} {t u : Writer} → Steps s xs ys t → Round t u → Steps s xs ys u
  send_immediate :
      {xs ys : List String} {t : Writer} (msg : String)
      → Steps s xs ys t
      → Steps s (xs ++ msg ∷ []) ys (record t { rx = t.rx ++ msg ∷ [] })
  send_queued :
      {xs ys : List String} {t : Writer} (msg : String)
      → Steps s xs ys t
      → Steps s xs (ys ++ msg ∷ []) (record t { sendq_rx = t.sendq_rx ++ msg ∷ [] })
  drop_client :
      {xs ys : List String} {t : Writer}
      → Steps s xs ys t
      → Steps s xs ys (record t { has_senders = false })

-- The third list has the entries of the first two, each of these in its order.
pub data Merge : List String → List String → List String → Type 0 where
  nothing : Merge [] [] []
  left :
      {xs ys zs : List String} (x : String)
      → Merge xs ys zs
      → Merge (xs ++ x ∷ []) ys (zs ++ x ∷ [])
  right :
      {xs ys zs : List String} (y : String)
      → Merge xs ys zs
      → Merge xs (ys ++ y ∷ []) (zs ++ y ∷ [])

abbrev fits : String → Bool
fits msg = leb (len msg) max_sendq

abbrev pub fitting : List String → List String
fitting [] = []
fitting (m ∷ ms) = let rest = fitting ms in if fits m then m ∷ rest else rest

abbrev pub oversized : List String → List String
oversized [] = []
oversized (m ∷ ms) = let rest = oversized ms in if fits m then rest else m ∷ rest

-- What was taken from the queues is written, but messages over the limit are dropped.
pub record Served (s : Writer) (xs ys : List String) (t : Writer) : Type 0 where
  pub immediates : List String
  pub messages : List String
  pub output : List String
  pub rx_split : s.rx ++ xs ≡ immediates ++ t.rx
  pub sendq_split : s.sendq_rx ++ ys ≡ messages ++ t.sendq_rx
  pub merged : Merge immediates (fitting messages) output
  pub written_grows : t.written ≡ s.written ++ output
  pub dropped_grows : t.dropped ≡ s.dropped ++ oversized messages
  pub size_zero : t.current_sendq_size ≡ 0

fitting-append :
    (ms : List String) (m : String) → fitting (ms ++ m ∷ []) ≡ fitting ms ++ fitting (m ∷ [])
fitting-append [] m = refl
fitting-append (k ∷ ms) m = ground (arith, fitting-append ms m)

oversized-append :
    (ms : List String) (m : String) → oversized (ms ++ m ∷ []) ≡ oversized ms ++ oversized (m ∷ [])
oversized-append [] m = refl
oversized-append (k ∷ ms) m = ground (arith, oversized-append ms m)

-- A served message that leaves the task running.
after_queued : String → Writer → Writer
after_queued msg s =
    if fits msg
    then record s { written = s.written ++ msg ∷ []; current_sendq_size = 0 }
    else record s { dropped = s.dropped ++ msg ∷ [] }

write_queued-running :
    (io_ok : Bool) (msg : String) (s : Writer)
    → s.current_sendq_size ≡ 0
    → (write_queued io_ok msg s).running ≡ true
    → write_queued io_ok msg s ≡ after_queued msg s
unfolding write_queued after_queued
write_queued-running io_ok msg s z r = ground arith

module _ (ms : List String) (m : String) where
  fitting-append_fits : fits m ≡ true → fitting (ms ++ m ∷ []) ≡ fitting ms ++ m ∷ []
  fitting-append_fits f = ground (arith, fitting-append ms m)

  fitting-append_over : fits m ≡ false → fitting (ms ++ m ∷ []) ≡ fitting ms
  fitting-append_over f = ground (arith, fitting-append ms m, List.append-nil (fitting ms))

  oversized-append_fits : fits m ≡ true → oversized (ms ++ m ∷ []) ≡ oversized ms
  oversized-append_fits f = ground (arith, oversized-append ms m, List.append-nil (oversized ms))

  oversized-append_over : fits m ≡ false → oversized (ms ++ m ∷ []) ≡ oversized ms ++ m ∷ []
  oversized-append_over f = ground (arith, oversized-append ms m)

-- An entry that moves from the front of what is left to the end of what is taken.
move :
    (taken : List String) (m : String) {a rest more : List String}
    → a ≡ taken ++ rest
    → rest ≡ m ∷ more
    → a ≡ (taken ++ m ∷ []) ++ more
move taken m {more = more} p e =
    p ∙ ap (λ r. taken ++ r) e ∙ sym (List.append_assoc taken (m ∷ []) more)

-- An entry that comes to the end of what is left.
extend :
    (first b taken rest : List String) (m : String)
    → first ++ b ≡ taken ++ rest
    → first ++ (b ++ m ∷ []) ≡ taken ++ (rest ++ m ∷ [])
extend first b taken rest m p =
    sym (List.append_assoc first b (m ∷ []))
    ∙ ap (λ l. l ++ m ∷ []) p
    ∙ List.append_assoc taken rest (m ∷ [])

module _ {s : Writer} {xs ys : List String} where
  after_queued-Served :
      (t : Writer) (msg : String) (more : List String)
      → t.sendq_rx ≡ msg ∷ more
      → Served s xs ys t
      → Served s xs ys (after_queued msg (record t { sendq_rx = more }))
  unfolding after_queued
  after_queued-Served t msg more e h = elim (Bool-cases (fits msg)) [
    | inl f ↦ rw f (record {
      immediates = h.immediates;
      messages = h.messages ++ msg ∷ [];
      output = h.output ++ msg ∷ [];
      rx_split = h.rx_split;
      sendq_split = move h.messages msg h.sendq_split e;
      merged =
          subst (λ l. Merge h.immediates l (h.output ++ msg ∷ []))
            (sym (fitting-append_fits h.messages msg f)) (right msg h.merged);
      written_grows =
          ap (λ l. l ++ msg ∷ []) h.written_grows ∙ List.append_assoc s.written h.output (msg ∷ []);
      dropped_grows =
          h.dropped_grows ∙ ap (λ l. s.dropped ++ l) (sym (oversized-append_fits h.messages msg f));
      size_zero = refl;
    })
    | inr f ↦ rw f (record {
      immediates = h.immediates;
      messages = h.messages ++ msg ∷ [];
      output = h.output;
      rx_split = h.rx_split;
      sendq_split = move h.messages msg h.sendq_split e;
      merged =
          subst (λ l. Merge h.immediates l h.output) (sym (fitting-append_over h.messages msg f))
            h.merged;
      written_grows = h.written_grows;
      dropped_grows =
          ap (λ l. l ++ msg ∷ []) h.dropped_grows
          ∙ List.append_assoc s.dropped (oversized h.messages) (msg ∷ [])
          ∙ ap (λ l. s.dropped ++ l) (sym (oversized-append_over h.messages msg f));
      size_zero = h.size_zero;
    })
  ]

  round-Served : (t u : Writer) → Round t u → u.running ≡ true → Served s xs ys t → Served s xs ys u
  unfolding write_immediate
  round-Served t _ (immediate _ true msg more r e) g h = record {
    immediates = h.immediates ++ msg ∷ [];
    messages = h.messages;
    output = h.output ++ msg ∷ [];
    rx_split = move h.immediates msg h.rx_split e;
    sendq_split = h.sendq_split;
    merged = left msg h.merged;
    written_grows =
        ap (λ l. l ++ msg ∷ []) h.written_grows ∙ List.append_assoc s.written h.output (msg ∷ []);
    dropped_grows = h.dropped_grows;
    size_zero = h.size_zero;
  }
  round-Served t _ (immediate _ false msg more r e) g h = ground arith
  round-Served t _ (immediate_closed _ r c e) g h = ground arith
  round-Served t _ (queued_closed _ r c e) g h = ground arith
  round-Served t _ (queued _ io_ok msg more r e) g h =
      subst (Served s xs ys)
        (sym (write_queued-running io_ok msg (record t { sendq_rx = more }) h.size_zero g))
        (after_queued-Served t msg more e h)

-- While the task runs, from a state in which its size is zero: what it has taken from the two queues is a
-- first part of each, with what was sent meanwhile at its end; all of it has been written, each queue
-- in its order, but the queued messages that are longer than the limit, which were dropped in their
-- order; and the size is zero again, so that no message is dropped for those before it.
pub Steps-Served :
    (s : Writer) (xs ys : List String) (t : Writer)
    → s.current_sendq_size ≡ 0
    → Steps s xs ys t
    → t.running ≡ true
    → Served s xs ys t
Steps-Served s _ _ _ z start r = record {
  immediates = [];
  messages = [];
  output = [];
  rx_split = List.append-nil s.rx;
  sendq_split = List.append-nil s.sendq_rx;
  merged = nothing;
  written_grows = sym (List.append-nil s.written);
  dropped_grows = sym (List.append-nil s.dropped);
  size_zero = z;
}
Steps-Served s xs ys u z (round {t = t} p q) r =
    round-Served t u q r (Steps-Served s xs ys t z p (before q))
  where
    before : {t u : Writer} → Round t u → t.running ≡ true
    before (immediate _ io_ok msg more g e) = g
    before (queued _ io_ok msg more g e) = g
    before (immediate_closed _ g c e) = g
    before (queued_closed _ g c e) = g
Steps-Served s _ ys _ z (send_immediate {xs = xs} {t = t} msg p) r =
    let h = Steps-Served s xs ys t z p r in
    record {
      immediates = h.immediates;
      messages = h.messages;
      output = h.output;
      rx_split = extend s.rx xs h.immediates t.rx msg h.rx_split;
      sendq_split = h.sendq_split;
      merged = h.merged;
      written_grows = h.written_grows;
      dropped_grows = h.dropped_grows;
      size_zero = h.size_zero;
    }
Steps-Served s xs _ _ z (send_queued {ys = ys} {t = t} msg p) r =
    let h = Steps-Served s xs ys t z p r in
    record {
      immediates = h.immediates;
      messages = h.messages;
      output = h.output;
      rx_split = h.rx_split;
      sendq_split = extend s.sendq_rx ys h.messages t.sendq_rx msg h.sendq_split;
      merged = h.merged;
      written_grows = h.written_grows;
      dropped_grows = h.dropped_grows;
      size_zero = h.size_zero;
    }
Steps-Served s xs ys _ z (drop_client {t = t} p) r =
    let h = Steps-Served s xs ys t z p r in
    record {
      immediates = h.immediates;
      messages = h.messages;
      output = h.output;
      rx_split = h.rx_split;
      sendq_split = h.sendq_split;
      merged = h.merged;
      written_grows = h.written_grows;
      dropped_grows = h.dropped_grows;
      size_zero = h.size_zero;
    }
