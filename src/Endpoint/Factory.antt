-- ===== src/Endpoint/Factory.antt =====
-- The loop of `startParseStream` of capturer/capture.go, which hands the streams of the work channel to
-- the endpoints of their servers, and `newServerEndpoint` less its choice of a decoder.
use data_collector.Base.{List, [], ◌∷◌, Option, none, some, Text, get, put, ℤ, Result, ok, ◌>>=◌}
use data_collector.Streams.Reader.{StreamReader}
use data_collector.Common.Address.{TcpAddr}
use data_collector.Endpoint.{TcpConn, new_tcp_conn, StreamType, ServerEndPoint, add_stream}
use data_collector.Endpoint.Direction.{Info, parse_failed, undetermined, info, get_info}

-- `SingleDirectionStream`: the ends of its flows as texts.
pub record SingleDirectionStream : Type 0 where
  pub reader : StreamReader
  pub src_end : Text × Text
  pub dst_end : Text × Text

-- `DefaultStreamFactory`: the addresses of its capture, and the endpoints by their servers.
pub record DefaultStreamFactory : Type 0 where
  pub addrs : List Text
  pub server_endpoints : List (Text × ServerEndPoint)

-- `newDSF`
unfoldable pub new_dsf : List Text → DefaultStreamFactory
new_dsf addrs = record { addrs = addrs; server_endpoints = [] }

-- `newServerEndpoint`: the connection is there, and is parsed.
unfoldable pub new_server_endpoint : TcpConn → ServerEndPoint
unfolding put
new_server_endpoint c = record {
  address = c.server_addr;
  conns = put (c.client_addr) c [];
  parsing = c.client_addr ∷ [];
}

unfoldable pub endpoint_of : Text → Text → Option ServerEndPoint → ServerEndPoint
unfolding new_server_endpoint new_tcp_conn
endpoint_of ca sa (some e) = e
endpoint_of ca sa none = new_server_endpoint (new_tcp_conn ca sa none none)

-- A stream whose client, server and type are known.
unfoldable pub place_stream :
    Text → Text → StreamType → StreamReader → DefaultStreamFactory → Result DefaultStreamFactory
unfolding endpoint_of add_stream get put
place_stream ca sa st reader f = do
  e ← add_stream ca sa reader st (endpoint_of ca sa (get sa (f.server_endpoints)))
  ok (record f { server_endpoints = put sa e (f.server_endpoints) })

module _ (parse_ip : Text → Option Text) (atoi : Text → Option ℤ) (text_of : TcpAddr → Text) where
  unfoldable pub by_info : Info → StreamReader → DefaultStreamFactory → Result DefaultStreamFactory
  unfolding place_stream
  by_info parse_failed reader f = ok f
  by_info undetermined reader f = ok f
  by_info (info c v st) reader f = place_stream (text_of c) (text_of v) st reader f

  -- One round of the loop.
  unfoldable pub parse_stream :
      SingleDirectionStream → DefaultStreamFactory → Result DefaultStreamFactory
  unfolding by_info get_info
  parse_stream sds f =
      by_info (get_info parse_ip atoi text_of (sds.src_end) (sds.dst_end) (f.addrs)) (sds.reader) f

  unfoldable pub start_parse_stream :
      List SingleDirectionStream → DefaultStreamFactory → Result DefaultStreamFactory
  unfolding parse_stream
  start_parse_stream [] f = ok f
  start_parse_stream (sds ∷ rest) f = parse_stream sds f >>= start_parse_stream rest
