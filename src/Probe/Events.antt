-- ===== src/Probe/Events.antt =====
-- internal/probe/events.go and the reply kinds of internal/probe/icmp.go.
-- Times and durations are nanoseconds; 0 is the zero time. A TTL is a uint8.
use Prim.Native.String.{String}
use hoptrail.Common.{ℕ, Bool, List}
use hoptrail.Common.Addr.{Addr}

pub data ReplyType : Type 0 where
  reply_none echo_reply time_exceeded dest_unreachable : ReplyType

pub record ProbeResult : Type 0 where
  pub target : Addr
  pub ttl : ℕ
  pub ts : ℕ
  pub resp_ip : Addr
  pub rtt : ℕ
  pub reply : ReplyType
  pub timed_out : Bool

pub record SweepResult : Type 0 where
  pub target : Addr
  pub ts : ℕ
  pub results : List ProbeResult
  pub terminal_ttl : ℕ

pub record Sample : Type 0 where
  pub target : Addr
  pub target_id : String
  pub ttl : ℕ
  pub ts : ℕ
  pub ip : Addr
  pub rtt : ℕ

pub record RouteChange : Type 0 where
  pub target : Addr
  pub target_id : String
  pub ttl : ℕ
  pub ts : ℕ
  pub old_ip : Addr
  pub new_ip : Addr
