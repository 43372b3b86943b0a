-- ===== src/Endpoint/Tests.antt =====
-- Runs of endpoints.
use data_collector.Base.{
  List, map, ok, none, true, arith, ◌≡◌, refl, [], ◌∷◌, Option, some, Text, codes, ℤ, pos,
}
use data_collector.Streams.Reader.{new_reader_stream}
use data_collector.Streams.Concurrent.Status.{has_bit}
use data_collector.Streams.Concurrent.{
  ConcurrentReader, fails, stream_not_validated, exclusive_read, is_validate, new_concurrent_reader,
}
use data_collector.Endpoint.{TcpConn, new_tcp_conn}
use data_collector.Endpoint.Factory.{
  SingleDirectionStream, DefaultStreamFactory, new_dsf, start_parse_stream,
}
use data_collector.Endpoint.Kept.{AllWellKept, start_parse_stream-AllWellKept}
use data_collector.Endpoint.Validation.{Decoder, success, Validating, run_schedule, new_validating}
use data_collector.Endpoint.Validation.Status.{Taken}
use data_collector.Endpoint.Validation.Chosen.{IsChosen, run_schedule-IsChosen}
use data_collector.Endpoint.Validation.Accepting.{run_schedule-c2s}
use data_collector.Common.Address.{TcpAddr, parse_ip_and_port}
use data_collector.Endpoint.{ServerEndPoint}
use data_collector.Endpoint.Direction.{get_info, info, get_info-server, contains, is_prefix}
use data_collector.Endpoint.{client2server_stream_type, server2client_stream_type}

abbrev endpoint : ServerEndPoint
endpoint = record { address = codes "s:80"; conns = []; parsing = [] }

-- Every text is an address, and every port is 80.
abbrev parse_ip : Text → Option Text
parse_ip t = some t

abbrev atoi : Text → Option ℤ
atoi t = some (pos 80)

abbrev text_of : TcpAddr → Text
text_of a = a.ip

abbrev client : Text × Text
client = (codes "c", codes "80")

abbrev server : Text × Text
server = (codes "s", codes "80")

get_info-server_example :
    (get_info parse_ip atoi text_of client server (codes "x" ∷ codes "s:80" ∷ [])
      ≡ info
          (record { ip = codes "c"; port = pos 80 })
          (record { ip = codes "s"; port = pos 80 })
          client2server_stream_type)
    × (get_info parse_ip atoi text_of server client (codes "x" ∷ codes "s:80" ∷ [])
        ≡ info
            (record { ip = codes "c"; port = pos 80 })
            (record { ip = codes "s"; port = pos 80 })
            server2client_stream_type)
unfolding parse_ip_and_port contains is_prefix
get_info-server_example =
    get_info-server parse_ip atoi text_of client server (record { ip = codes "c"; port = pos 80 })
      (record { ip = codes "s"; port = pos 80 }) (codes "x" ∷ []) (codes "s:80") [] refl refl
      (refl, tt) refl refl

-- Both streams of a connection.
abbrev both_streams : List SingleDirectionStream
both_streams =
    record { reader = new_reader_stream; src_end = client; dst_end = server }
    ∷ record { reader = new_reader_stream; src_end = server; dst_end = client }
    ∷ []

start_parse_stream-AllWellKept_example :
    (f : DefaultStreamFactory) × (start_parse_stream parse_ip atoi text_of both_streams
        (new_dsf (codes "s:80" ∷ []))
      ≡ ok f)
    × AllWellKept f
start_parse_stream-AllWellKept_example =
    start_parse_stream-AllWellKept parse_ip atoi text_of (codes "s:80" ∷ []) both_streams

-- Two decoders that find every stream valid from its first byte on.
abbrev first_decoder : Decoder
first_decoder = record {
  name = codes "http";
  validate_type = 1;
  locate_start = λ side id m. (m, some 0);
}

abbrev second_decoder : Decoder
second_decoder = record {
  name = codes "any";
  validate_type = 3;
  locate_start = λ side id m. (m, some 0);
}

abbrev present : ConcurrentReader
present = record (new_concurrent_reader (some new_reader_stream)) {
  broadcast = true;
  cache = 1 ∷ 2 ∷ [];
}

abbrev present_conn : TcpConn
present_conn = record (new_tcp_conn (codes "c:9") (codes "s:80") none none) {
  client2server_stream = present;
}

run_schedule-IsChosen_example : IsChosen (first_decoder ∷ second_decoder ∷ []) (
    run_schedule
      (0 ∷ 1 ∷ 0 ∷ 0 ∷ 1 ∷ 0 ∷ [])
      (new_validating present_conn 1 (first_decoder ∷ second_decoder ∷ [])))
run_schedule-IsChosen_example =
    run_schedule-IsChosen present_conn 1 (first_decoder ∷ second_decoder ∷ [])
      (0 ∷ 1 ∷ 0 ∷ 0 ∷ 1 ∷ 0 ∷ []) ((λ side id m. refl), ((λ side id m. refl), tt))

run_schedule-c2s_example :
    (v : Validating) × (run_schedule
        (0 ∷ 0 ∷ 0 ∷ 0 ∷ 0 ∷ 0 ∷ [])
        (new_validating present_conn 1 (first_decoder ∷ []))
      ≡ ok v)
    × (v.decoder_name ≡ codes "http")
    × (v.conn.client2server_stream.cache ≡ 1 ∷ 2 ∷ [])
    × Taken v.conn.client2server_stream
    × (map (λ g. g.task) v.goroutines ≡ success ∷ [])
    × (exclusive_read (λ r. true) 9 v.conn.server2client_stream
        ≡ fails stream_not_validated v.conn.server2client_stream)
unfolding new_concurrent_reader new_reader_stream new_tcp_conn is_validate has_bit
run_schedule-c2s_example =
    run_schedule-c2s present_conn 1 0 first_decoder present new_reader_stream (λ r. true) 9 refl
      refl (omega arith) refl refl refl
