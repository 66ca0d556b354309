-- ===== src/Wire/Udp.antt =====
-- bryllite-core/udp_client.hpp: class udp_client. boost::asio, the threads and the sockets are a
-- parameter. A message is the memory at its pointer, and its header is read by the cast of that
-- memory; log output is left out.
use Prim.Native.String.{String}
use bcp_concept_prototype.Prelude.{
  ℕ, zero, suc, ◌+◌, ◌*◌, Bool, true, false, not, ◌&&◌, List, [], ◌∷◌, Option, none, some, ltb,
  if◌then◌else◌,
}
use bcp_concept_prototype.Message.{MessageHeader, max_message_length, valid}
use bcp_concept_prototype.App.{Throws, returns, throws}

-- Memory from a pointer on.
abbrev pub Memory : Type 0
Memory = ℕ → ℕ

-- The little-endian number of some bytes.
unfoldable pub number_at : Memory → ℕ → ℕ → ℕ
number_at memory at zero = 0
number_at memory at (suc n) = memory at + 256 * number_at memory (suc at) n

-- ( message* )data: the packed layout of message_header
unfoldable pub cast_message : Memory → MessageHeader
unfolding number_at
cast_message memory = record {
  signature = memory 0 ∷ memory 1 ∷ memory 2 ∷ memory 3 ∷ [];
  size = number_at memory 4 8;
  msgid = number_at memory 12 2;
}

-- ( const char* )msg: that many bytes of it
unfoldable pub bytes_of : Memory → ℕ → ℕ → List ℕ
bytes_of memory at zero = []
bytes_of memory at (suc n) = memory at ∷ bytes_of memory (suc at) n

-- What the client uses of boost::asio and std::thread. A call that throws leaves the World that it
-- returns beside.
pub record Asio : Type 1 where
  pub World : Type 0
  pub Endpoint : Type 0
  -- udp::endpoint( address::from_string( host ), port )
  pub endpoint : String → ℕ → Throws Endpoint
  -- streambuf: prepare(), commit(), the memory at data(), and consume()
  pub StreamBuf : Type 0
  pub prepare : ℕ → StreamBuf → Throws StreamBuf
  pub commit : ℕ → StreamBuf → StreamBuf
  pub contents : StreamBuf → Option Memory
  pub consume : ℕ → StreamBuf → StreamBuf
  pub async_receive_from : StreamBuf → World → World × Bool
  pub send_to : List ℕ → Endpoint → World → World × Bool
  -- new std::thread with io_service::run, io_service::stop() and join()
  pub run_thread : World → World
  pub stop_service : World → World
  pub join_thread : World → World × Bool

module _ (asio : Asio) where
  pub record UdpClient : Type 0 where
    pub remote_endpoint : asio.Endpoint
    pub read_endpoint : asio.Endpoint
    pub read_buffer : asio.StreamBuf
    pub write_buffer : asio.StreamBuf
    pub world : asio.World

  -- do_read() with its result; the Bool of a call tells whether it has returned, not thrown
  unfoldable pub do_read : UdpClient → UdpClient × Bool
  do_read c = elim (asio.prepare max_message_length c.read_buffer) [
    | throws e ↦ (c, false)
    | returns b ↦
        let (w, ok) = asio.async_receive_from b c.world in
        (record c { read_buffer = b; world = w }, ok)
  ]

  -- A bad address throws before anything is started.
  unfoldable pub udp_client_start : String → ℕ → UdpClient → UdpClient × Throws Bool
  unfolding do_read
  udp_client_start host port c = elim (asio.endpoint host port) [
    | throws e ↦ (c, throws e)
    | returns ep ↦
        let (c, ok) = do_read (record c { remote_endpoint = ep }) in
        if ok
        then (record c { world = asio.run_thread c.world }, returns true)
        else (c, returns false)
  ]

  unfoldable pub udp_client_stop : UdpClient → UdpClient × Bool
  udp_client_stop c =
      let (w, ok) = asio.join_thread (asio.stop_service c.world) in (record c { world = w }, ok)

  -- udp_sendto( endpoint, data, size ), and of a message of the size in its header
  unfoldable pub udp_sendto : asio.Endpoint → Memory → ℕ → UdpClient → UdpClient × Bool
  unfolding bytes_of
  udp_sendto ep memory size c =
      let (w, ok) = asio.send_to (bytes_of memory 0 size) ep c.world in (record c { world = w }, ok)

  unfoldable pub udp_sendto_message : asio.Endpoint → Memory → UdpClient → UdpClient × Bool
  unfolding udp_sendto cast_message
  udp_sendto_message ep msg c = udp_sendto ep msg (cast_message msg).size c

  -- the same to the remote endpoint
  unfoldable pub udp_send : Memory → ℕ → UdpClient → UdpClient × Bool
  unfolding udp_sendto
  udp_send memory size c = udp_sendto c.remote_endpoint memory size c

  unfoldable pub udp_send_message : Memory → UdpClient → UdpClient × Bool
  unfolding udp_sendto_message
  udp_send_message msg c = udp_sendto_message c.remote_endpoint msg c

  -- _on_send_to, with the call of onUdpClientWrite; the buffer is the one for reading
  unfoldable pub on_send_to : asio.Endpoint → Bool → ℕ → UdpClient → UdpClient × (asio.Endpoint × ℕ)
  on_send_to ep error bytes c =
      (record c { read_buffer = asio.consume bytes c.read_buffer }, (ep, bytes))

  -- the message that onUdpClientMessage is called with, if it is
  unfoldable pub callback : asio.StreamBuf → Option Memory
  unfolding cast_message valid
  callback b = elim (asio.contents b) [
    | none ↦ none
    | some memory ↦ (if valid (cast_message memory) then some memory else none)
  ]

  -- _on_receive_from, with the call of onUdpClientMessage
  unfoldable pub on_receive_from :
      Bool → ℕ → UdpClient → UdpClient × Option (asio.Endpoint × Memory)
  unfolding callback do_read
  on_receive_from error bytes c =
      let filled = asio.commit bytes c.read_buffer in
      let called : Option (asio.Endpoint × Memory) = elim (callback filled) [
        | none ↦ none
        | some msg ↦ some (c.read_endpoint, msg)
      ] in
      if not error && ltb 0 bytes
      then ((do_read (record c { read_buffer = asio.consume bytes filled })).0, called)
      else ((do_read c).0, none)
