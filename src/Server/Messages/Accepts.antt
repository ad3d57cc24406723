-- ===== src/Server/Messages/Accepts.antt =====
-- Which messages of other servers are accepted.
use clandestine.Prelude.{
  ℕ, String, Bool, true, false, ◌&&◌, ◌≡◌, refl, List, [], ◌∷◌, Option, none, some, if◌then◌else◌,
  leb, length, get_elem?, arith, Bool-cases, inl, inr,
}
use clandestine.Prelude.Eq.{◌==◌, string_eq}
use clandestine.Ts6.{Ts6Message}
use clandestine.World.{World}
use clandestine.Act.{Act, Outcome, done, pure, raise}
use clandestine.Server.Messages.{
  handle_server_pass, handle_server_capab, handle_server_intro, handle_server_join,
  handle_server_sid, handle_server_ping, handle_server_pong, handle_server_quit,
  handle_server_message,
}

abbrev pub is_done : Outcome (Unit {0}) → Bool
is_done (done u) = true
is_done _ = false

-- How many parameters a message needs.
abbrev pub arity : String → ℕ
arity command =
    if command == "PASS"
    then 4
    else if command == "CAPAB"
    then 1
    else if command == "SERVER"
    then 3
    else if command == "SJOIN"
    then 4
    else if command == "SID"
    then 4
    else if command == "PING"
    then 1
    else if command == "PONG"
    then 0
    else if command == "SQUIT"
    then 2
    else 0

abbrev is_six : Option String → Bool
is_six none = false
is_six (some version) = version == "6"

-- The version that PASS gives is 6.
abbrev pub version_fits : Ts6Message → Bool
version_fits m = if m.command == "PASS" then is_six (get_elem? m.params 2) else true

-- The action changes nothing, and succeeds if the test holds.
abbrev TestsOnly : Act (Unit {0}) → Bool → Type 0
TestsOnly act b = (w : World) → (is_done (act w).0 ≡ b) × ((act w).1 ≡ w)

pass_lem :
    (ps : List String)
    → TestsOnly (handle_server_pass ps) (is_six (get_elem? ps 2) && leb 4 (length ps))
unfolding handle_server_pass pure raise
pass_lem [] w = (refl, refl)
pass_lem (a ∷ []) w = (refl, refl)
pass_lem (a ∷ b ∷ []) w = (refl, refl)
pass_lem (a ∷ b ∷ c ∷ []) w = (ground arith, refl)
pass_lem (a ∷ b ∷ c ∷ d ∷ ps) w = (ground arith, ground arith)

module _ (w : World) where
  one_lem :
      (ps : List String)
      → ((is_done (handle_server_capab ps w).0 ≡ leb 1 (length ps))
          × ((handle_server_capab ps w).1 ≡ w))
        × ((is_done (handle_server_ping ps w).0 ≡ leb 1 (length ps))
            × ((handle_server_ping ps w).1 ≡ w))
  unfolding handle_server_capab handle_server_ping pure raise
  one_lem [] = ((refl, refl), (refl, refl))
  one_lem (a ∷ ps) = ((ground arith, refl), (ground arith, refl))

  two_lem :
      (ps : List String)
      → (is_done (handle_server_quit ps w).0 ≡ leb 2 (length ps))
        × ((handle_server_quit ps w).1 ≡ w)
  unfolding handle_server_quit pure raise
  two_lem [] = (refl, refl)
  two_lem (a ∷ []) = (refl, refl)
  two_lem (a ∷ b ∷ ps) = (ground arith, refl)

  three_lem :
      (ps : List String)
      → (is_done (handle_server_intro ps w).0 ≡ leb 3 (length ps))
        × ((handle_server_intro ps w).1 ≡ w)
  unfolding handle_server_intro pure raise
  three_lem [] = (refl, refl)
  three_lem (a ∷ []) = (refl, refl)
  three_lem (a ∷ b ∷ []) = (refl, refl)
  three_lem (a ∷ b ∷ c ∷ ps) = (ground arith, refl)

  four_lem :
      (ps : List String)
      → ((is_done (handle_server_join ps w).0 ≡ leb 4 (length ps))
          × ((handle_server_join ps w).1 ≡ w))
        × ((is_done (handle_server_sid ps w).0 ≡ leb 4 (length ps))
            × ((handle_server_sid ps w).1 ≡ w))
  unfolding handle_server_join handle_server_sid pure raise
  four_lem [] = ((refl, refl), (refl, refl))
  four_lem (a ∷ []) = ((refl, refl), (refl, refl))
  four_lem (a ∷ b ∷ []) = ((refl, refl), (refl, refl))
  four_lem (a ∷ b ∷ c ∷ []) = ((refl, refl), (refl, refl))
  four_lem (a ∷ b ∷ c ∷ d ∷ ps) = ((ground arith, refl), (ground arith, refl))

-- A message of another server is accepted exactly if it has as many parameters as its command needs, and,
-- if it is PASS, gives version 6; a message with an unknown command is accepted. In every case, also
-- in that of an error, the world is as before.
pub handle_server_message_lem :
    (m : Ts6Message) (w : World)
    → (is_done (handle_server_message m w).0
        ≡ (version_fits m && leb (arity m.command) (length m.params)))
      × ((handle_server_message m w).1 ≡ w)
unfolding handle_server_message handle_server_pong pure
handle_server_message_lem m w = elim (Bool-cases (m.command == "PASS")) [
  | inl e0 ↦ rw (e0) (pass_lem m.params w)
  | inr e0 ↦ elim (Bool-cases (m.command == "CAPAB")) [
    | inl e1 ↦ rw (e0, e1) ((one_lem w m.params).0)
    | inr e1 ↦ elim (Bool-cases (m.command == "SERVER")) [
      | inl e2 ↦ rw (e0, e1, e2) (three_lem w m.params)
      | inr e2 ↦ elim (Bool-cases (m.command == "SJOIN")) [
        | inl e3 ↦ rw (e0, e1, e2, e3) ((four_lem w m.params).0)
        | inr e3 ↦ elim (Bool-cases (m.command == "SID")) [
          | inl e4 ↦ rw (e0, e1, e2, e3, e4) ((four_lem w m.params).1)
          | inr e4 ↦ elim (Bool-cases (m.command == "PING")) [
            | inl e5 ↦ rw (e0, e1, e2, e3, e4, e5) ((one_lem w m.params).1)
            | inr e5 ↦ elim (Bool-cases (m.command == "PONG")) [
              | inl e6 ↦ rw (e0, e1, e2, e3, e4, e5, e6) ((ground arith, refl))
              | inr e6 ↦ elim (Bool-cases (m.command == "SQUIT")) [
                | inl e7 ↦ rw (e0, e1, e2, e3, e4, e5, e6, e7) (two_lem w m.params)
                | inr e7 ↦ rw (e0, e1, e2, e3, e4, e5, e6, e7) (ground arith, refl)
              ]
            ]
          ]
        ]
      ]
    ]
  ]
]
