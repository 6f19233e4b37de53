-- ===== src/Examples/ClusterRuns/Answered.antt =====
-- The calls that the first server of the group makes, and an answer to one.
use jkv.Base.{
  List, count, ◌+◌, ◌<◌, length, ℕ, ◌≡◌, refl, [], ◌∷◌, returned, arith, if◌then◌else◌, ◌==◌,
}
use jkv.Clients.{get_client}
use jkv.Peer.Send.{send_msgs, send_msg2_peer}
use jkv.Peer.Ready.{tick, handle_raft_ready}
use jkv.Server.{Server, fire}
use jkv.Peer.Send.{handle_send_msg2_peer}
use jkv.Peer.Send.Objects.{made}
use jkv.Server.{answer_call}
use jkv.Server.Objects.{answers, serve-made, answer_call-frees}
use jkv.Server.Inputs.{Input, call_answered, serve, timer_fires}
use jkv.Examples.ServerRuns.{flags_of, value_of}
use jkv.Examples.ClusterRuns.{chat, started}

-- Two calls are made, and the first one is answered.
abbrev two_beats : List Input
two_beats = timer_fires 1 ∷ timer_fires 1 ∷ call_answered 0 ∷ []

beaten : Server chat
unfolding serve fire answer_call handle_send_msg2_peer tick handle_raft_ready send_msgs
    send_msg2_peer get_client started
beaten = value_of (started (flags_of 1)).server (serve chat two_beats (started (flags_of 1)).server)

beats_go : serve chat two_beats (started (flags_of 1)).server ≡ returned beaten
unfolding beaten
beats_go = refl

one_is_live : (beaten.host.net.controllers ≡ 1 ∷ []) × (beaten.host.net.responses ≡ 1 ∷ [])
unfolding beaten
one_is_live = (refl, refl)

nothing_sent : (started (flags_of 1)).server.host.net.sent ≡ []
unfolding started
nothing_sent = refl

no_controllers : (started (flags_of 1)).server.host.net.controllers ≡ []
unfolding started
no_controllers = refl

no_responses : (started (flags_of 1)).server.host.net.responses ≡ []
unfolding started
no_responses = refl

serve-made_example :
    (count 0 beaten.host.net.controllers + count 0 (answers two_beats)
      ≡ made chat 0 beaten.host.net)
    × (count 0 beaten.host.net.responses + count 0 (answers two_beats)
        ≡ made chat 0 beaten.host.net)
serve-made_example =
    serve-made chat two_beats (started (flags_of 1)).server beaten 0 nothing_sent no_controllers
      no_responses beats_go

two_made : 1 < length beaten.host.net.sent
unfolding beaten
two_made = omega arith

answer_call-frees_example :
    (t : Server chat) × (answer_call chat 1 beaten ≡ returned t)
    × ((j : ℕ)
        → (count j t.host.net.controllers
            ≡ (if j == 1 then 0 else count j beaten.host.net.controllers))
          × (count j t.host.net.responses
              ≡ (if j == 1 then 0 else count j beaten.host.net.responses)))
answer_call-frees_example =
    answer_call-frees chat two_beats (started (flags_of 1)).server beaten 1 nothing_sent
      no_controllers no_responses beats_go two_made refl
