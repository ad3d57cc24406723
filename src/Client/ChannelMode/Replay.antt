-- ===== src/Client/ChannelMode/Replay.antt =====
-- The MODE message that is broadcast, against the changes that were made.
use clandestine.Prelude.{
  String, Char, Bool, true, false, not, ◌&&◌, ◌≡◌, refl, sym, ap, ◌∙◌, List, [], ◌∷◌, ◌++◌, arith,
  if◌then◌else◌, same, All, if_elim,
}
use mathlib.Core.List
use clandestine.Prelude.Assoc.{is_some}
use clandestine.Channel
use clandestine.Channel.{Channel}
use clandestine.Client.ChannelMode.{
  Change, ModeLoop, is_flag, change, key_with, mode_char, mode_chars, sign, render_from, render,
  render_params, param_list, mode_start,
}

-- The changes that the loop can make: a flag with no parameter, or the key, with a parameter when
-- it is set and with none when it is taken away.
abbrev is_change : Change → Bool
is_change k =
    if is_flag k.mode
    then not (is_some k.param)
    else same k.mode "k" && (if k.adding then is_some k.param else not (is_some k.param))

abbrev AllChanges : List Change → Type 0
AllChanges = All (λ k. is_change k ≡ true)

AllChanges-append :
    (ks : List Change) (k : Change) → AllChanges ks → is_change k ≡ true → AllChanges (ks ++ k ∷ [])
AllChanges-append [] k h e = (e, tt)
AllChanges-append (j ∷ ks) k (h, hs) e = (h, AllChanges-append ks k hs e)

-- The changes made one after another.
abbrev pub apply : List Change → Channel → Channel
apply [] ch = ch
apply (k ∷ ks) ch = apply ks (Channel.set_mode k.mode k.param k.adding ch)

abbrev looking : Bool → List String → List Change → Channel → ModeLoop
looking adding params changes channel = record {
  adding = adding;
  mode_params = params;
  changes = changes;
  channel = channel;
}

mode_char-replay :
    (k : Change) (rest : List String) (acc : List Change) (ch : Channel)
    → is_change k ≡ true
    → mode_char k.mode (looking k.adding (param_list k.param ++ rest) acc ch)
      ≡ looking k.adding rest (acc ++ k ∷ []) (Channel.set_mode k.mode k.param k.adding ch)
unfolding mode_char
mode_char-replay k rest acc ch h = ground arith

mode_char-sign :
    (b c : Bool) (params : List String) (acc : List Change) (ch : Channel)
    → mode_char (sign b) (looking c params acc ch) ≡ looking b params acc ch
unfolding mode_char
mode_char-sign true c params acc ch = refl
mode_char-sign false c params acc ch = refl

-- The sign is written when it changes.
mode_chars-sign :
    (current b : Bool) (c : Char) (rest : String) (params : List String) (acc : List Change)
    (ch : Channel)
    → mode_chars
        (if same (sign b) (sign current)
          then String.◌∷◌ c rest
          else String.◌∷◌ (sign b) (String.◌∷◌ c rest))
        (looking current params acc ch)
      ≡ mode_chars rest (mode_char c (looking b params acc ch))
unfolding mode_chars mode_char
mode_chars-sign true true c rest params acc ch = refl
mode_chars-sign true false c rest params acc ch = refl
mode_chars-sign false true c rest params acc ch = refl
mode_chars-sign false false c rest params acc ch = refl

last_adding : Bool → List Change → Bool
last_adding b [] = b
last_adding b (k ∷ ks) = last_adding k.adding ks

render_from-replay :
    (current : Bool) (ks : List Change) (acc : List Change) (ch : Channel)
    → AllChanges ks
    → mode_chars (render_from current ks) (looking current (render_params ks) acc ch)
      ≡ looking (last_adding current ks) [] (acc ++ ks) (apply ks ch)
unfolding mode_chars render_from render_params last_adding
render_from-replay current [] acc ch h = rw List.append-nil
render_from-replay current (k ∷ ks) acc ch (h, hs) =
    mode_chars-sign current k.adding k.mode (render_from k.adding ks) (render_params (k ∷ ks)) acc
      ch
    ∙ ap (mode_chars (render_from k.adding ks)) (mode_char-replay k (render_params ks) acc ch h)
    ∙ render_from-replay k.adding ks (acc ++ k ∷ []) (Channel.set_mode k.mode k.param k.adding ch)
        hs
    ∙ ap (λ all. looking (last_adding k.adding ks) [] all (apply (k ∷ ks) ch))
        (List.append_assoc acc (k ∷ []) ks)

render-replay :
    (ks : List Change) (ch : Channel)
    → AllChanges ks
    → (adding : Bool) × (mode_chars (render ks) (mode_start (render_params ks) ch)
        ≡ looking adding [] ks (apply ks ch))
unfolding render mode_chars render_params
render-replay [] ch h = (true, refl)
render-replay (k ∷ ks) ch h = (
  last_adding k.adding (k ∷ ks),
  ap (mode_chars (render_from k.adding (k ∷ ks)))
        (mode_char-sign k.adding true (render_params (k ∷ ks)) [] ch)
      ∙ render_from-replay k.adding (k ∷ ks) [] ch h,
)

-- What the loop has done so far are changes, and they make its channel from the first.
abbrev Noted : Channel → ModeLoop → Type 0
Noted ch s = AllChanges s.changes × (s.channel ≡ apply s.changes ch)

apply-append :
    (ks : List Change) (k : Change) (ch : Channel)
    → apply (ks ++ k ∷ []) ch ≡ Channel.set_mode k.mode k.param k.adding (apply ks ch)
apply-append [] k ch = refl
apply-append (j ∷ ks) k ch = apply-append ks k (Channel.set_mode j.mode j.param j.adding ch)

change-Noted :
    (ch : Channel) (k : Change) (s : ModeLoop)
    → is_change k ≡ true
    → Noted ch s
    → Noted ch (change k s)
change-Noted ch k s e (h, eq) = (
  AllChanges-append s.changes k h e,
  ap (Channel.set_mode k.mode k.param k.adding) eq ∙ sym (apply-append s.changes k ch),
)

key_with-Noted :
    (ch : Channel) (c : Char) (params : List String) (s : ModeLoop)
    → s.adding ≡ true
    → same c "k" ≡ true
    → is_flag c ≡ false
    → Noted ch s
    → Noted ch (key_with c params s)
key_with-Noted ch c [] s e k f h = h
key_with-Noted ch c (key ∷ more) s e k f h =
    change-Noted ch _ (record s { mode_params = more }) (ground arith) h

mode_char-Noted : (ch : Channel) (c : Char) (s : ModeLoop) → Noted ch s → Noted ch (mode_char c s)
unfolding mode_char
mode_char-Noted ch c s h =
    if_elim (Noted ch) (same c "+") _ _ (λ e. h)
      (λ e.
        if_elim (Noted ch) (same c "-") _ _ (λ e. h)
          (λ e.
            if_elim (Noted ch) (is_flag c) _ _ (λ f. change-Noted ch _ s (ground arith) h)
              (λ f.
                if_elim (Noted ch) (same c "k") _ _
                  (λ k.
                    if_elim (Noted ch) s.adding _ _
                      (λ a. key_with-Noted ch c s.mode_params s a k f h)
                      (λ a. change-Noted ch _ s (ground arith) h))
                  (λ k. h))))

mode_chars-Noted :
    (ch : Channel) (modes : String) (s : ModeLoop) → Noted ch s → Noted ch (mode_chars modes s)
unfolding mode_chars
mode_chars-Noted ch String.[] s h = h
mode_chars-Noted ch (String.◌∷◌ c cs) s h =
    mode_chars-Noted ch cs (mode_char c s) (mode_char-Noted ch c s h)

abbrev pub after : String → List String → Channel → ModeLoop
after modes params ch = mode_chars modes (mode_start params ch)

abbrev pub replayed : String → List String → Channel → ModeLoop
replayed modes params ch =
    let changes = (after modes params ch).changes in
    after (render changes) (render_params changes) ch

-- Whatever modes and parameters a client sends, the loop that makes changes, run on the channel as it
-- was with the letters and the parameters of the MODE message that is written from the changes,
-- makes the same changes, gives the same channel, and uses every parameter.
pub render-replayed :
    (modes : String) (params : List String) (ch : Channel)
    → ((replayed modes params ch).changes ≡ (after modes params ch).changes)
      × ((replayed modes params ch).channel ≡ (after modes params ch).channel)
      × ((replayed modes params ch).mode_params ≡ [])
render-replayed modes params ch =
    let (h, e) = mode_chars-Noted ch modes (mode_start params ch) (tt, refl) in
    let (adding, r) = render-replay (after modes params ch).changes ch h in
    (ap (λ s. s.changes) r, ap (λ s. s.channel) r ∙ sym e, ap (λ s. s.mode_params) r)
