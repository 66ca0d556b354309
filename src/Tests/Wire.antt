-- ===== src/Tests/Wire.antt =====
-- The theorems on socket_buffer.hpp, udp_client.hpp and singleton.hpp at small inputs.
use bcp_concept_prototype.Prelude.{ℕ, zero, suc, ◌≡◌, refl, true, false, List, [], ◌∷◌, some, none}
use bcp_concept_prototype.Message.{valid}
use bcp_concept_prototype.App.{returns}
use bcp_concept_prototype.Wire.Udp.{
  Memory, Asio, UdpClient, cast_message, udp_sendto_message, on_receive_from,
}
use bcp_concept_prototype.Wire.Datagrams.{on_receive_from-udp_sendto_message}
use bcp_concept_prototype.Common.Singleton.{
  singleton, run, run_handlers, instance_call, release_call, run_handlers-run,
}

-- A message of 14 bytes with the identifier 101, and zeros behind it.
abbrev pub ping_bytes : List ℕ
ping_bytes = 66 ∷ 82 ∷ 67 ∷ 0 ∷ 14 ∷ 0 ∷ 0 ∷ 0 ∷ 0 ∷ 0 ∷ 0 ∷ 0 ∷ 101 ∷ 0 ∷ []

abbrev pub nth : List ℕ → Memory
nth [] i = 0
nth (b ∷ bs) zero = b
nth (b ∷ bs) (suc i) = nth bs i

abbrev pub ping : Memory
ping = nth ping_bytes

-- A buffer is the memory that was received, and the world the datagrams sent.
abbrev asio : Asio
asio = record {
  World = List (List ℕ);
  Endpoint = ℕ;
  endpoint = λ host port. returns port;
  StreamBuf = Memory;
  prepare = λ n b. returns b;
  commit = λ n b. b;
  contents = λ b. some b;
  consume = λ n b. b;
  async_receive_from = λ b w. (w, true);
  send_to = λ bytes ep w. (bytes ∷ w, true);
  run_thread = λ w. w;
  stop_service = λ w. w;
  join_thread = λ w. (w, true);
}

abbrev client : UdpClient asio
client = record {
  remote_endpoint = 1;
  read_endpoint = 2;
  read_buffer = ping;
  write_buffer = ping;
  world = [];
}

on_receive_from-udp_sendto_message_example :
    ((udp_sendto_message asio 2 ping client).1 ≡ true)
    × ((on_receive_from asio false 14 client).1 ≡ some (2, ping))
    × (cast_message ping ≡ cast_message ping)
unfolding cast_message valid
on_receive_from-udp_sendto_message_example =
    on_receive_from-udp_sendto_message asio 2 ping client client ping refl refl refl

run_handlers-run_example :
    ((run_handlers 2 (run (instance_call ∷ release_call ∷ instance_call ∷ []) singleton)).instance
      ≡ none)
    × ((run_handlers 2 (run (instance_call ∷ release_call ∷ instance_call ∷ []) singleton)).deleted
        ≡ (run_handlers 2 (run (instance_call ∷ release_call ∷ instance_call ∷ []) singleton)).made)
unfolding run singleton
run_handlers-run_example = run_handlers-run (instance_call ∷ release_call ∷ instance_call ∷ [])
