-- ===== src/Tests/Handlers.antt =====
-- Examples of the theorems on the handlers and the shared state.
use clandestine.Prelude.{
  ℕ, String, true, List, [], ◌∷◌, none, some, ◌≡◌, ◌↔◌, refl, arith, if◌then◌else◌,
}
use clandestine.Prelude.{subst}
use clandestine.Prelude.Eq.{◌==◌, nat_eq}
use clandestine.Prelude.Set
use clandestine.Ts6
use clandestine.Ts6.{Ts6Message, to_string}
use clandestine.Ts6.Parser.{parse_message}
use clandestine.Channel.{ClientId}
use clandestine.World.{World}
use clandestine.Client.Dispatch.{handle_connection_with_reader}
use clandestine.Client.Query.{handle_privmsg, handle_notice}
use clandestine.Client.ChannelMode.Replay.{after}
use clandestine.Delivery.Messages.{handle_notice_silent}
use clandestine.Invariant.Registered.{IsNamed, lines-IsNamed}
use clandestine.Prelude.Assoc
use clandestine.Prelude.Eq.{string_eq}
use clandestine.Invariant.Nicknames.{OwnNames, lines-names_unique}
use clandestine.Prelude.{sym, not, ◌++◌, Char, true, false, ◌&&◌, Bool}
use clandestine.Prelude.Set.{contains}
use clandestine.Act.{Outcome, done, fail, panic, blocked}
use clandestine.Client.ChannelMode.{handle_channel_mode}
use clandestine.Client.ChannelMode.Blocked.{no_changes, handle_channel_mode-blocked}
use clandestine.Client.Membership.{handle_join}
use clandestine.Client.Membership.Blocked.{handle_join-blocked}
use clandestine.Client.Dispatch.{handle_message}
use clandestine.Client.Dispatch.Negotiation.{handle_message-negotiating}
use clandestine.Client.User.{handle_nick}
use clandestine.Client.User.Nick.{name_after, answer_after, handle_nick_lem}
use clandestine.Client.Registration.{check_registration}
use clandestine.Client.Query.{handle_whois}
use clandestine.Client.Query.Whois.{handle_whois-panic}
use clandestine.Server.Connection.{new}
use clandestine.Server.Clients.{add_client, remove_client}
use clandestine.Server.Clients.InSync.{InSync, clients-InSync}
use clandestine.Delivery.Private.{with_text, text_to_nick_lem}
use clandestine.Prelude.{if_elim}
use clandestine.Delivery.Leave.{Calm, members_at}
use clandestine.Delivery.Cleanup.{Gone, cleanup-Gone}
use clandestine.Client.Dispatch.{cleanup}
use clandestine.Tests.{config, newcomer, named, room, server, world_of, alice, json, empty_disk}

handle_notice_silent_example :
    ((handle_notice ("#a" ∷ "hi" ∷ []) alice).1.self ≡ alice.self)
    × ((handle_notice ("#a" ∷ "hi" ∷ []) alice).1.server ≡ alice.server)
handle_notice_silent_example = handle_notice_silent ("#a" ∷ "hi" ∷ []) alice

abbrev lines : List String
lines = "NICK carol" ∷ "USER u 0 * :Carol" ∷ "PING x" ∷ []

lines-IsNamed_example : IsNamed (handle_connection_with_reader lines (world_of newcomer)).1.self
unfolding newcomer
lines-IsNamed_example = lines-IsNamed lines (world_of newcomer) refl

alice-OwnNames : OwnNames alice
unfolding named newcomer Assoc.get
alice-OwnNames = record { leads = λ j. ground arith }

lines-names_unique_example :
    (◌≡◌ {A = ℕ} 2 2) × OwnNames (handle_connection_with_reader lines alice).1
unfolding named newcomer handle_connection_with_reader clandestine.Act.for_each
    clandestine.Act.◌>>=◌ clandestine.Client.Dispatch.handle_line parse_message
    clandestine.Client.Dispatch.handle_message clandestine.Client.User.handle_nick
    clandestine.Server.Registration.register_nickname Assoc.get
    clandestine.Server.Registration.unregister_nickname
    clandestine.Client.Registration.check_registration clandestine.Client.User.handle_user
lines-names_unique_example =
    lines-names_unique lines alice alice-OwnNames 2 2 "bob" "bob" refl refl refl

handle_channel_mode-blocked_example :
    ((handle_channel_mode ("#a" ∷ "+m" ∷ []) alice).0
      ≡ (if no_changes (after "+m" [] room).changes then done tt else blocked))
    × (contains "#a" (handle_channel_mode ("#a" ∷ "+m" ∷ []) alice).1.locks.writing
        ≡ not (no_changes (after "+m" [] room).changes))
unfolding Assoc.get contains
handle_channel_mode-blocked_example =
    handle_channel_mode-blocked "#a" "+m" [] room alice refl refl refl refl refl

handle_join-blocked_example : (handle_join ("#b" ∷ []) alice).0 ≡ blocked
unfolding named contains
handle_join-blocked_example = handle_join-blocked "#b" "alice" [] alice refl refl refl

abbrev negotiating : World
unfolding newcomer
negotiating = world_of (record newcomer { cap_negotiating = true })

handle_message-negotiating_example :
    handle_message (Ts6.new "NICK" ("alice" ∷ [])) negotiating ≡ (done tt, negotiating)
unfolding negotiating
handle_message-negotiating_example =
    handle_message-negotiating (Ts6.new "NICK" ("alice" ∷ [])) negotiating refl refl

handle_nick_lem_example :
    ((handle_nick ("carol" ∷ []) alice).1.self.nickname ≡ name_after "carol" alice)
    × ((key : String)
        → Assoc.get key (handle_nick ("carol" ∷ []) alice).1.server.nickname_map
          ≡ answer_after "carol" alice key)
handle_nick_lem_example = handle_nick_lem "carol" [] alice

abbrev new_world : World
unfolding newcomer
new_world = record (world_of newcomer) {
  server = record server { clients = []; client_map = []; channels = [] };
}

handle_whois-panic_example :
    (handle_whois ("bob" ∷ []) (handle_connection_with_reader ("NICK alice" ∷ []) new_world).1).0
    ≡ panic
unfolding new new_world
handle_whois-panic_example =
    handle_whois-panic json empty_disk config new_world ("NICK alice" ∷ []) "bob" [] refl

clients-InSync_example :
    InSync (add_client 3 alice).1.server
    × InSync (remove_client 3 alice).1.server
    × ((b : ClientId)
        → (contains b (add_client 3 alice).1.server.clients
            ≡ (clandestine.Prelude.◌||◌ (3 == b) (contains b alice.server.clients)))
          × (contains b (remove_client 3 alice).1.server.clients
              ≡ (if 3 == b then false else contains b alice.server.clients)))
unfolding contains
clients-InSync_example =
    clients-InSync 3 alice refl (record { distinct = (refl, (refl, tt)); same_ids = λ b. refl })

text_to_nick_lem_example :
    (handle_privmsg ("bob" ∷ "hi" ∷ []) alice ≡ (done tt, with_text "PRIVMSG" "bob" "hi" 2 alice))
    × (handle_notice ("bob" ∷ "hi" ∷ []) alice ≡ (done tt, with_text "NOTICE" "bob" "hi" 2 alice))
unfolding named newcomer contains
text_to_nick_lem_example =
    text_to_nick_lem "bob" "hi" "bob" [] 2 alice alice-OwnNames refl refl refl refl (omega arith)
      refl refl refl

alice-Calm : Calm alice
unfolding room Assoc.get contains
alice-Calm = record {
  no_writer = refl;
  no_reader = refl;
  no_queue = refl;
  no_map_queue = refl;
  distinct = λ name.
      if_elim (λ o. Set.Distinct (members_at o)) ("#a" == name) _ _ (λ e. (refl, (refl, tt)))
        (λ e. tt);
  free = λ name j m. refl;
}

cleanup-Gone_example : Gone alice (cleanup alice)
unfolding named
cleanup-Gone_example = cleanup-Gone "alice" alice refl alice-Calm
