-- ===== src/Link/Replies.antt =====
-- What the loop of src/link/mod.rs over the lines of another server does.
use clandestine.Prelude.{
  ℕ, take, length, leb, zero, suc, String, Bool, true, false, List, [], ◌∷◌, ◌++◌, ◌≡◌, refl, sym,
  ◌∙◌, arith, if◌then◌else◌, inl, inr, Bool-cases,
}
use mathlib.Core.List
use clandestine.Prelude.Eq.{◌==◌, string_eq}
use clandestine.Prelude.Text.{◌<>◌}
use clandestine.Error.{IrcError, io, protocol, Result, ok, err}
use clandestine.Ts6
use clandestine.Ts6.{Ts6Message, to_string}
use clandestine.Ts6.Parser.{parse_message}
use clandestine.Link
use clandestine.Link.{
  ServerLink, Method, send_message, handle_message, handle_parsed, handle_connection,
}

-- The messages among the lines, up to the first SQUIT, and whether there is one.
abbrev pub until_squit : List (Result Ts6Message String) → List Ts6Message
until_squit [] = []
until_squit (err e ∷ rs) = until_squit rs
until_squit (ok m ∷ rs) = let rest = until_squit rs in if m.command == "SQUIT" then [] else m ∷ rest

abbrev pub has_squit : List (Result Ts6Message String) → Bool
has_squit [] = false
has_squit (err e ∷ rs) = has_squit rs
has_squit (ok m ∷ rs) = let rest = has_squit rs in if m.command == "SQUIT" then true else rest

-- A PONG with the same parameters for every PING.
abbrev pub pongs : List Ts6Message → List String
pongs [] = []
pongs (m ∷ ms) =
    let rest = pongs ms in
    if m.command == "PING" then (to_string (Ts6.new "PONG" m.params) <> "\r\n") ∷ rest else rest

abbrev pub readings : List String → List (Result Ts6Message String)
readings [] = []
readings (line ∷ lines) = parse_message line ∷ readings lines

abbrev pub ending : Bool → Result (Unit {0}) IrcError
ending true = err (protocol "Server quit")
ending false = ok tt

-- What the loop over the lines does by itself: what it answers, as far as the socket takes it, and how it
-- ends.
abbrev pub Answers : List (Result Ts6Message String) → Method → Type 0
Answers rs method =
    (l : ServerLink)
    → ((method l).1.written ≡ l.written ++ take l.writable (pongs (until_squit rs)))
      × ((method l).0 ≡ (
          if leb (length (pongs (until_squit rs))) l.writable
          then ending (has_squit rs)
          else err (io "Broken pipe")))

-- The same for texts, and an ending.
abbrev Writes : List String → Bool → Method → Type 0
Writes texts squit method =
    (l : ServerLink)
    → ((method l).1.written ≡ l.written ++ take l.writable texts)
      × ((method l).0
          ≡ (if leb (length texts) l.writable then ending squit else err (io "Broken pipe")))

-- A text that is written first.
Writes-cons :
    (text : String) (texts : List String) (squit : Bool) (method : Method)
    → Writes texts squit method
    → (n : ℕ) (l : ServerLink)
    → ((Link.then_if_ok method (Link.write_all n text l)).1.written
        ≡ l.written ++ take n (text ∷ texts))
      × ((Link.then_if_ok method (Link.write_all n text l)).0
          ≡ (if leb (length (text ∷ texts)) n then ending squit else err (io "Broken pipe")))
Writes-cons text texts squit method h zero l = (sym (List.append-nil l.written), ground arith)
Writes-cons text texts squit method h (suc n) l =
    let rest = h (record l { written = l.written ++ text ∷ []; writable = n }) in
    (rest.0 ∙ List.append_assoc l.written (text ∷ []) (take n texts), ground (arith, rest.1))

take_nil : (n : ℕ) → take {A = String} n [] ≡ []
take_nil zero = refl
take_nil (suc n) = refl

-- Nothing is written.
Writes-nil : (squit : Bool) → Writes [] squit (λ l. (ending squit, l))
Writes-nil squit l = (rw (take_nil l.writable) (sym (List.append-nil l.written)), ground arith)

-- One line more in front.
Answers-cons :
    (r : Result Ts6Message String) (rs : List (Result Ts6Message String)) (method : Method)
    → Answers rs method
    → Answers (r ∷ rs) (Link.◌>>◌ (handle_parsed r) method)
unfolding handle_parsed handle_message send_message
Answers-cons (err e) rs method h l = h l
Answers-cons (ok m) rs method h l = elim (Bool-cases (m.command == "PING")) [
  | inl ping ↦
      let other : (m.command == "SQUIT") ≡ false =
        rw ((string_eq.beq_holds m.command "PING").0 ping) refl in
      rw (ping, other, ping)
        (Writes-cons (to_string (Ts6.new "PONG" m.params) <> "\r\n") (pongs (until_squit rs))
          (has_squit rs) method h l.writable l)
  | inr n ↦ elim (Bool-cases (m.command == "SQUIT")) [
    | inl squit ↦ rw (n, squit) (Writes-nil true l)
    | inr other ↦ rw (n, other, n) (h l)
  ]
]

-- The loop answers every PING before the first SQUIT, in their order and with their parameters, as far as
-- the socket takes the answers, and writes nothing else. If it takes all of them, the loop ends with an
-- error if there is a SQUIT, and well with the lines otherwise; if not, with the error of the socket.
pub handle_connection_lem :
    (lines : List String) (l : ServerLink)
    → ((handle_connection lines l).1.written
        ≡ l.written ++ take l.writable (pongs (until_squit (readings lines))))
      × ((handle_connection lines l).0 ≡ (
          if leb (length (pongs (until_squit (readings lines)))) l.writable
          then ending (has_squit (readings lines))
          else err (io "Broken pipe")))
unfolding handle_connection
handle_connection_lem [] l = Writes-nil false l
handle_connection_lem (line ∷ lines) l =
    Answers-cons (parse_message line) (readings lines) (handle_connection lines)
      (handle_connection_lem lines) l
