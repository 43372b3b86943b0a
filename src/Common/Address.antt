-- ===== src/Common/Address.antt =====
-- `ParseIpAndPort2TCPAddr` of common/util.go. `net.ParseIP` and `strconv.Atoi` are parameters, with no
-- value where they fail.
use data_collector.Base.{Option, none, some, Text, ℤ}

pub record TcpAddr : Type 0 where
  pub ip : Text
  pub port : ℤ

module _ (parse_ip : Text → Option Text) (atoi : Text → Option ℤ) where
  unfoldable pub address : Option Text → Option ℤ → Option TcpAddr
  address none port = none
  address (some a) none = none
  address (some a) (some p) = some (record { ip = a; port = p })

  unfoldable pub parse_ip_and_port : Text → Text → Option TcpAddr
  unfolding address
  parse_ip_and_port ip port = address (parse_ip ip) (atoi port)
