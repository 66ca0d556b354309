-- ===== src/P2p/Reading.antt =====
-- tests/dev/p2p_server/p2p_server.cpp: how class p2p_server reads the messages of a session, and
-- closes it. The handlers of a session keep nothing else of the server, so that they are functions
-- of the session. The clock is an argument.
use bcp_concept_prototype.Prelude.{
  ℕ, ◌+◌, ◌-◌, Bool, true, not, Option, none, some, List, [], ◌∷◌, ltb, if◌then◌else◌,
}
use bcp_concept_prototype.Message.{header_size, payload_size, valid}
use bcp_concept_prototype.Wire.Udp.{Memory, cast_message}
use bcp_concept_prototype.P2p.Socket.{
  Sockets, header_read, body_read, Call, on_disconnected, on_message, starts_read,
}
use bcp_concept_prototype.P2p.Session.{
  P2pSession, MessageProcedure, close, read_buffer, next_read_buffer, read_buffer_length,
}

-- `nowhere` is what a read at nullptr would find.
module _ (sockets : Sockets) (nowhere : Memory) where
  pub record Handled : Type 0 where
    pub session : P2pSession sockets
    pub calls : List Call
    pub returned : Bool

  unfoldable pub memory_at : Option ℕ → P2pSession sockets → Memory
  memory_at none s = nowhere
  memory_at (some row) s = s.read_ring.rows row

  unfoldable pub close_session : ℕ → P2pSession sockets → Handled
  close_session now s =
      let (s, ok) = close sockets now s in
      record { session = s; calls = on_disconnected ∷ []; returned = ok }

  unfoldable pub session_read_header : P2pSession sockets → Handled
  session_read_header s =
      let (s, row) = next_read_buffer sockets s in
      record {
        session = s;
        calls =
            starts_read (record {
              row = row;
              offset = 0;
              room = read_buffer_length sockets s;
              exactly = header_size;
              completion = header_read;
            })
            ∷ [];
        returned = true;
      }

  -- session_start( session )
  unfoldable pub session_start : P2pSession sockets → Handled
  session_start s = session_read_header s

  unfoldable pub session_read_body : Option ℕ → P2pSession sockets → Handled
  session_read_body header s = record {
    session = s;
    calls =
        starts_read (record {
          row = header;
          offset = header_size;
          room = read_buffer_length sockets s - header_size;
          exactly = payload_size (cast_message (memory_at header s));
          completion = body_read header;
        })
        ∷ [];
    returned = true;
  }

  unfoldable pub handle_session_read_header : ℕ → Bool → ℕ → P2pSession sockets → Handled
  handle_session_read_header now error bytes_transferred s =
      if error
      then close_session now s
      else (if not (valid (cast_message (memory_at (read_buffer sockets s) s)))
          then close_session now s
          else session_read_body (read_buffer sockets s) s)

  -- The method onMessage, which a class below p2p_server defines, may change the session.
  module _ (procedure : MessageProcedure sockets) where
    unfoldable pub deliver : Memory → P2pSession sockets → Handled
    deliver msg s =
        let h = session_read_header (procedure msg s) in
        record h { calls = on_message msg ∷ h.calls }

    unfoldable pub handle_session_read_body : ℕ → Option ℕ → Bool → ℕ → P2pSession sockets → Handled
    handle_session_read_body now header error bytes_transferred s =
        let msg = memory_at header s in
        if error
        then close_session now s
        else (if ltb (cast_message msg).size (bytes_transferred + header_size)
            then close_session now s
            else (if not (valid (cast_message msg)) then close_session now s else deliver msg s))
