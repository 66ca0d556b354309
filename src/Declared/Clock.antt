-- ===== src/Declared/Clock.antt =====
-- bryllite-common/timer.hpp and bryllite-core/bcp_timer.hpp: the timers and the clock of the
-- network, with the packet of NTP.
use Prim.Native.String.{String}
use bcp_concept_prototype.Prelude.{ℕ, Bool, List}
use bcp_concept_prototype.Prelude.Ints.{ℤ}

-- class ICallbackTimer; the context of a timer is of a type that the caller knows
pub record CallbackTimer (Context : Type 0) (State : Type 0) : Type 0 where
  pub on_time_out : ℤ → Context → State → State × ℤ

-- class timer
pub record Timer : Type 0 where
  pub begin_time : ℤ
  pub marked : List (ℤ × ℤ)

-- class timer_item; a repeat count of -1 has no end
pub record TimerItem (Context : Type 0) : Type 0 where
  pub id : ℤ
  pub timeout : ℤ
  pub context : Context
  pub begin_time : ℤ
  pub repeat : ℤ

-- class callback_timer
pub record CallbackTimers (Context : Type 0) : Type 0 where
  pub timers : List (ℤ × TimerItem Context)

-- class CRemoteTime
pub record RemoteTime : Type 0 where
  pub remote_time : ℤ
  pub local_time : ℤ
  pub move_time : ℤ

abbrev pub default_ntp_port : ℕ
default_ntp_port = 123

abbrev pub ntp_timestamp_delta : ℕ
ntp_timestamp_delta = 2208988800

-- class ntp_packet: 48 bytes
pub record NtpPacket : Type 0 where
  pub li_vn_mode : ℕ
  pub stratum : ℕ
  pub poll : ℕ
  pub precision : ℕ
  pub root_delay : ℕ
  pub root_dispersion : ℕ
  pub ref_id : ℕ
  pub ref_tm_s : ℕ
  pub ref_tm_f : ℕ
  pub orig_tm_s : ℕ
  pub orig_tm_f : ℕ
  pub rx_tm_s : ℕ
  pub rx_tm_f : ℕ
  pub tx_tm_s : ℕ
  pub tx_tm_f : ℕ

-- class TimeServerEntry
pub record TimeServerEntry : Type 0 where
  pub host : String
  pub port : ℕ
  pub timeout : ℤ
  pub stratum : ℕ

-- class CBcpTimer
pub record BcpTimer : Type 0 where
  pub remote_time : RemoteTime
  pub temp_time : RemoteTime
  pub synchronized : Bool
  pub latency : ℤ
  pub receive_packet : NtpPacket
  pub time_servers : List TimeServerEntry
