-- ===== src/Client/Registration/Burst.antt =====
-- The numerics that src/client/registration.rs queues.
use clandestine.Prelude.{ℕ, String, true, List, [], ◌∷◌, ◌++◌, ◌≡◌, refl, sym, ap, ◌∙◌, arith}
use mathlib.Core.List
use clandestine.World.{World, Client}
use clandestine.Act.{Act, done, gets, ◌>>=◌, ◌>>◌}
use clandestine.Client.Send.{send_message, send_numeric, numeric_message, wire}
use clandestine.Client.Registration.{send_motd, send_welcome, send_lusers}

-- Numerics with these codes, each with its parameters.
abbrev pub numerics : Client → List (ℕ × List String) → List String
numerics c [] = []
numerics c ((code, params) ∷ more) = wire (numeric_message code params c) ∷ numerics c more

abbrev pub codes_of : List (ℕ × List String) → List ℕ
codes_of [] = []
codes_of ((code, params) ∷ more) = code ∷ codes_of more

abbrev pub queue_up : List String → World → World
queue_up texts w = record w { self = record w.self { sendq_tx = w.self.sendq_tx ++ texts } }

-- The action queues numerics with these codes, in this order, and does nothing else.
pub record Burst (codes : List ℕ) (m : Act (Unit {0})) (w : World) : Type 0 where
  pub messages : List (ℕ × List String)
  pub same_codes : codes_of messages ≡ codes
  pub queues : m w ≡ (done tt, queue_up (numerics w.self messages) w)

abbrev pub Bursts : List ℕ → Act (Unit {0}) → Type 0
Bursts codes m = (w : World) → w.self.writer_open ≡ true → Burst codes m w

module _ (c : Client) where
  numerics-append :
      (xs ys : List (ℕ × List String)) → numerics c (xs ++ ys) ≡ numerics c xs ++ numerics c ys
  numerics-append [] ys = refl
  numerics-append (x ∷ xs) ys =
      ap (λ l. wire (numeric_message x.0 x.1 c) ∷ l) (numerics-append xs ys)

codes_of-append :
    (xs ys : List (ℕ × List String)) → codes_of (xs ++ ys) ≡ codes_of xs ++ codes_of ys
codes_of-append [] ys = refl
codes_of-append (x ∷ xs) ys = ap (λ l. x.0 ∷ l) (codes_of-append xs ys)

Bursts-send_numeric : (n : ℕ) (params : List String) → Bursts (n ∷ []) (send_numeric n params)
unfolding send_numeric send_message ◌>>=◌
Bursts-send_numeric n params w o = record {
  messages = (n, params) ∷ [];
  same_codes = refl;
  queues = ground (arith, o);
}

queue_up-append :
    (xs ys : List String) (w : World) → queue_up ys (queue_up xs w) ≡ queue_up (xs ++ ys) w
queue_up-append xs ys w i = record w {
  self = record w.self { sendq_tx = List.append_assoc w.self.sendq_tx xs ys i };
}

-- One burst after another.
pub Bursts-append :
    {ks ls : List ℕ} (m n : Act (Unit {0})) → Bursts ks m → Bursts ls n → Bursts (ks ++ ls) (m >> n)
unfolding ◌>>=◌ numeric_message
Bursts-append {ks} {ls} m n hm hn w o =
    let a = hm w o in
    let b = hn (queue_up (numerics w.self a.messages) w) o in
    record {
      messages = a.messages ++ b.messages;
      same_codes =
          codes_of-append a.messages b.messages ∙ ground (arith, a.same_codes, b.same_codes);
      queues = rw (a.queues) (
          b.queues
          ∙ ap (λ u. (done tt, u))
              (queue_up-append (numerics w.self a.messages) (numerics w.self b.messages) w
                ∙ ap (λ l. queue_up l w) (sym (numerics-append w.self a.messages b.messages))));
    }

Bursts-gets {ℓ} :
    {A : Type ℓ} {ks : List ℕ} (g : World → A) (f : A → Act (Unit {0}))
    → ((a : A) → Bursts ks (f a))
    → Bursts ks (gets g >>= f)
unfolding ◌>>=◌
Bursts-gets g f h w o =
    let b = h (g w) w o in
    record { messages = b.messages; same_codes = b.same_codes; queues = b.queues }

pub Bursts-send_motd : Bursts (375 ∷ 372 ∷ 376 ∷ []) send_motd
unfolding send_motd
Bursts-send_motd =
    Bursts-append _ _ (Bursts-send_numeric _ _)
      (Bursts-append _ _ (Bursts-send_numeric _ _) (Bursts-send_numeric _ _))

pub Bursts-send_lusers : Bursts (251 ∷ 252 ∷ 254 ∷ 255 ∷ 265 ∷ 266 ∷ []) send_lusers
unfolding send_lusers
Bursts-send_lusers = Bursts-append _ _ (Bursts-send_numeric _ _) (
    Bursts-append _ _ (Bursts-send_numeric _ _) (
      Bursts-append _ _ (Bursts-send_numeric _ _) (
        Bursts-append _ _ (Bursts-send_numeric _ _)
          (Bursts-append _ _ (Bursts-send_numeric _ _) (Bursts-send_numeric _ _)))))

pub Bursts-send_welcome : Bursts (1 ∷ 2 ∷ 3 ∷ 4 ∷ 5 ∷ []) send_welcome
unfolding send_welcome
Bursts-send_welcome = Bursts-gets _ _ (λ c. Bursts-gets _ _ (λ date.
    Bursts-append _ _ (Bursts-send_numeric _ _) (
      Bursts-append _ _ (Bursts-send_numeric _ _) (
        Bursts-append _ _ (Bursts-send_numeric _ _)
          (Bursts-append _ _ (Bursts-send_numeric _ _) (Bursts-send_numeric _ _))))))
