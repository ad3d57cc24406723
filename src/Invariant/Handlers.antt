-- ===== src/Invariant/Handlers.antt =====
-- The handlers that change the channels or only send.
use clandestine.Prelude.{String, Char, Bool, true, false, List, [], ◌∷◌, Option, none, some}
use clandestine.Channel.{Channel, ClientId, DateTime}
use clandestine.World.{World, Client, WhoisInfo}
use clandestine.Act.Keeps.{Keeps, Keeps-bind, Keeps-pure}
use clandestine.Invariant.{Sends}
use clandestine.Invariant.Sending.{Keeps-get_client, sending_rules}
use clandestine.Server.Stats.{get_stats}
use clandestine.Client.Registration.{send_motd}
use clandestine.Client.Membership.{
  grant_first, enter_channel, send_operator, send_setter, send_topic, TopicInfo, locked_client,
  member_entry, collect_members, handle_names, join_channel, handle_join, part_channel, handle_part,
}
use clandestine.Client.ChannelMode.{Change, announce, change_modes, query_or_change}
use clandestine.Client.Query.{
  show_whois, handle_whois, who_reply, who_found, who_channel, who_user, handle_who, privmsg_user,
  privmsg_to, privmsg_params, handle_privmsg, notice_user, notice_to, notice_params, handle_notice,
}
use clandestine.Client.Info.{
  handle_ping, handle_motd, handle_version, handle_admin, handle_info, handle_lusers,
}

module _ {P : World → Type 0} (s : Sends P) where
  Keeps-grant_first : (name : String) (b : Bool) (ch : Channel) → Keeps P (grant_first name b ch)
  unfolding grant_first
  Keeps-grant_first name true ch = search sending_rules depth 8
  Keeps-grant_first name false ch = search sending_rules

  Keeps-enter_channel : (name : String) → Keeps P (enter_channel name)
  unfolding enter_channel
  Keeps-enter_channel name = search (sending_rules, Keeps-grant_first) depth 9

  Keeps-send_operator : (name : String) (b : Bool) → Keeps P (send_operator name b)
  unfolding send_operator
  Keeps-send_operator name true = search sending_rules depth 9
  Keeps-send_operator name false = search sending_rules

  Keeps-send_setter :
      (name : String) (o : Option String) (t : DateTime) → Keeps P (send_setter name o t)
  unfolding send_setter
  Keeps-send_setter name none t = search sending_rules
  Keeps-send_setter name (some setter) t = search sending_rules

  Keeps-send_topic : (name : String) (o : TopicInfo) → Keeps P (send_topic name o)
  unfolding send_topic
  Keeps-send_topic name none = search sending_rules
  Keeps-send_topic name (some (topic, setter, time)) = search (sending_rules, Keeps-send_setter)

  Keeps-locked_client : (id : ClientId) → Keeps P (locked_client id)
  unfolding locked_client
  Keeps-locked_client id = search sending_rules

  Keeps-member_entry : (b : Bool) (o : Option ClientId) → Keeps P (member_entry b o)
  unfolding member_entry
  Keeps-member_entry b none = search sending_rules
  Keeps-member_entry b (some id) = search (sending_rules, Keeps-locked_client) depth 8

  Keeps-collect_members : (b : Bool) (ids : List ClientId) → Keeps P (collect_members b ids)
  unfolding collect_members
  Keeps-collect_members b [] = search sending_rules
  Keeps-collect_members b (id ∷ ids) = Keeps-bind _ _ (Keeps-get_client s.quiet id) λ client.
      Keeps-bind _ _ (Keeps-member_entry b client)
        λ entry. Keeps-bind _ _ (Keeps-collect_members b ids) λ more. Keeps-pure _

  Keeps-handle_names :
      (name : String) (ms : List (String × List Char)) → Keeps P (handle_names name ms)
  unfolding handle_names
  Keeps-handle_names name ms = search sending_rules

  Keeps-join_channel : (name : String) → Keeps P (join_channel name)
  unfolding join_channel
  Keeps-join_channel name =
      search
        (
          sending_rules, Keeps-enter_channel, Keeps-send_operator, Keeps-send_topic,
          Keeps-collect_members, Keeps-handle_names,
        )
        depth 12

  pub Keeps-handle_join : (params : List String) → Keeps P (handle_join params)
  unfolding handle_join
  Keeps-handle_join [] = search sending_rules
  Keeps-handle_join (name ∷ more) = Keeps-join_channel name

  Keeps-part_channel : (name text : String) → Keeps P (part_channel name text)
  unfolding part_channel
  Keeps-part_channel name text = search sending_rules depth 9

  pub Keeps-handle_part : (params : List String) → Keeps P (handle_part params)
  unfolding handle_part
  Keeps-handle_part [] = search sending_rules
  Keeps-handle_part (name ∷ more) = search (sending_rules, Keeps-part_channel) depth 8

  Keeps-announce : (target : String) (ks : List Change) → Keeps P (announce target ks)
  unfolding announce
  Keeps-announce target [] = search sending_rules
  Keeps-announce target (k ∷ ks) = search sending_rules depth 9

  Keeps-change_modes :
      (target : String) (ch : Channel) (modes : String) (params : List String)
      → Keeps P (change_modes target ch modes params)
  unfolding change_modes
  Keeps-change_modes target ch modes params = search (sending_rules, Keeps-announce) depth 9

  pub Keeps-query_or_change :
      (target : String) (ch : Channel) (params : List String)
      → Keeps P (query_or_change target ch params)
  unfolding query_or_change
  Keeps-query_or_change target ch [] = search sending_rules
  Keeps-query_or_change target ch (modes ∷ params) = Keeps-change_modes target ch modes params

  Keeps-show_whois : (target : String) (o : Option WhoisInfo) → Keeps P (show_whois target o)
  unfolding show_whois
  Keeps-show_whois target none = search sending_rules
  Keeps-show_whois target (some info) = search sending_rules

  pub Keeps-handle_whois : (params : List String) → Keeps P (handle_whois params)
  unfolding handle_whois
  Keeps-handle_whois [] = search sending_rules
  Keeps-handle_whois (target ∷ more) = search (sending_rules, Keeps-show_whois)

  Keeps-who_reply :
      (shown : String) (status : String → String) (c : Client) → Keeps P (who_reply shown status c)
  unfolding who_reply
  Keeps-who_reply shown status c = search sending_rules depth 8

  Keeps-who_found :
      (shown : String) (status : String → String) (o : Option ClientId)
      → Keeps P (who_found shown status o)
  unfolding who_found
  Keeps-who_found shown status none = search sending_rules
  Keeps-who_found shown status (some id) =
      search (sending_rules, Keeps-locked_client, Keeps-who_reply)

  Keeps-who_channel : (target : String) → Keeps P (who_channel target)
  unfolding who_channel
  Keeps-who_channel target = search (sending_rules, Keeps-who_found) depth 10

  Keeps-who_user : (target : String) → Keeps P (who_user target)
  unfolding who_user
  Keeps-who_user target = search (sending_rules, Keeps-who_found)

  pub Keeps-handle_who : (params : List String) → Keeps P (handle_who params)
  unfolding handle_who
  Keeps-handle_who [] = search sending_rules
  Keeps-handle_who (target ∷ more) = search (sending_rules, Keeps-who_channel, Keeps-who_user)

  Keeps-privmsg_user :
      (target text : String) (o : Option ClientId) → Keeps P (privmsg_user target text o)
  unfolding privmsg_user
  Keeps-privmsg_user target text none = search sending_rules
  Keeps-privmsg_user target text (some id) = search sending_rules depth 8

  Keeps-privmsg_to : (target text : String) → Keeps P (privmsg_to target text)
  unfolding privmsg_to
  Keeps-privmsg_to target text = search (sending_rules, Keeps-privmsg_user) depth 10

  Keeps-privmsg_params : (params : List String) → Keeps P (privmsg_params params)
  unfolding privmsg_params
  Keeps-privmsg_params (target ∷ text ∷ more) = Keeps-privmsg_to target text
  Keeps-privmsg_params _ = search sending_rules

  pub Keeps-handle_privmsg : (params : List String) → Keeps P (handle_privmsg params)
  unfolding handle_privmsg
  Keeps-handle_privmsg params = search (sending_rules, Keeps-privmsg_params)

  Keeps-notice_user :
      (target text : String) (o : Option ClientId) → Keeps P (notice_user target text o)
  unfolding notice_user
  Keeps-notice_user target text none = search sending_rules
  Keeps-notice_user target text (some id) = search sending_rules depth 8

  Keeps-notice_to : (target text : String) → Keeps P (notice_to target text)
  unfolding notice_to
  Keeps-notice_to target text = search (sending_rules, Keeps-notice_user) depth 10

  Keeps-notice_params : (params : List String) → Keeps P (notice_params params)
  unfolding notice_params
  Keeps-notice_params (target ∷ text ∷ more) = Keeps-notice_to target text
  Keeps-notice_params _ = search sending_rules

  pub Keeps-handle_notice : (params : List String) → Keeps P (handle_notice params)
  unfolding handle_notice
  Keeps-handle_notice params = search (sending_rules, Keeps-notice_params)

  pub Keeps-send_motd : Keeps P send_motd
  unfolding send_motd
  Keeps-send_motd = search sending_rules

  pub Keeps-handle_ping : (params : List String) → Keeps P (handle_ping params)
  unfolding handle_ping
  Keeps-handle_ping [] = search sending_rules
  Keeps-handle_ping (cookie ∷ more) = search sending_rules

  pub Keeps-handle_motd : (params : List String) → Keeps P (handle_motd params)
  unfolding handle_motd
  Keeps-handle_motd params = Keeps-send_motd

  pub Keeps-handle_version : (params : List String) → Keeps P (handle_version params)
  unfolding handle_version
  Keeps-handle_version params = search sending_rules

  pub Keeps-handle_admin : (params : List String) → Keeps P (handle_admin params)
  unfolding handle_admin
  Keeps-handle_admin params = search sending_rules depth 8

  pub Keeps-handle_info : (params : List String) → Keeps P (handle_info params)
  unfolding handle_info
  Keeps-handle_info params = search sending_rules depth 8

  pub Keeps-handle_lusers : (params : List String) → Keeps P (handle_lusers params)
  unfolding handle_lusers get_stats
  Keeps-handle_lusers params = search sending_rules depth 8
