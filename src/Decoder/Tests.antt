-- ===== src/Decoder/Tests.antt =====
-- Runs of decoders.
use data_collector.Base.{
  take, drop, ◌≡◌, ◌==◌, Bool, codes, Text, [], ◌∷◌, ◌++◌, length, Option, none, some, refl, true,
  arith, ℕ, ◌≢◌, List, All,
}
use data_collector.Streams.Reader.{new_reader_stream}
use data_collector.Streams.Concurrent.{ConcurrentReader, new_concurrent_reader}
use data_collector.Streams.Concurrent.Consuming.{Sound}
use data_collector.Endpoint.{TcpConn, new_tcp_conn}
use data_collector.Decoder.Http.Parsing.{Answer, message, reader_nil, failure, parse, parse-pairs}
use data_collector.Decoder.Default.{TookFromBoth, default_parse, default_parse-TookFromBoth}
use data_collector.Decoder.Http.{
  failed, locate_to_valid_start_in_c2s_stream, locate_to_valid_start_in_s2c_stream,
}
use data_collector.Decoder.Http.Start.{
  Answers, locate_to_valid_start_in_c2s_stream-Answers, locate_to_valid_start_in_s2c_stream_fails,
}
use data_collector.Decoder.Wrapper.{StreamWrapper, copied, reads, reads-times}

-- A line passes if it has three bytes.
abbrev check : Text → Bool
check line = length line == 3

abbrev stream : Text
stream = codes "junk" ++ b'\r' ∷ b'\n' ∷ codes "OK" ++ b'\r' ∷ b'\n' ∷ []

locate_to_valid_start_in_c2s_stream-Answers_example :
    Answers check stream 0 (locate_to_valid_start_in_c2s_stream check stream)
locate_to_valid_start_in_c2s_stream-Answers_example =
    locate_to_valid_start_in_c2s_stream-Answers check stream

locate_to_valid_start_in_s2c_stream_fails_example :
    locate_to_valid_start_in_s2c_stream check stream ≡ failed
locate_to_valid_start_in_s2c_stream_fails_example =
    locate_to_valid_start_in_s2c_stream_fails check stream

-- A reader of the bytes of a text, and a search that fails.
abbrev text_read : ℕ → Text → Option Text × Text
text_read n t = (some (take n t), drop n t)

abbrev no_start : Text → Option Text × Text
no_start t = (none, t)

abbrev wrapper : StreamWrapper Text
wrapper = record {
  internal_reader = some (codes "rest");
  valid_start_bytes = codes "GET";
  is_ready = true;
  has_juger = true;
}

reads-times_example :
    reads text_read no_start 2 8 wrapper
    ≡ (copied (codes "GET") ∷ copied (codes "GET") ∷ [], wrapper)
reads-times_example =
    reads-times text_read no_start 2 8 (codes "rest") wrapper refl refl (omega arith) (omega arith)

abbrev requests : List (Answer ℕ)
requests = message 1 ∷ reader_nil ∷ message 2 ∷ failure ∷ []

abbrev responses : List (Answer ℕ)
responses = message 3 ∷ message 4 ∷ message 5 ∷ []

responses-there : All (λ r. r ≢ reader_nil) responses
responses-there = ((λ e. cc), ((λ e. cc), ((λ e. cc), tt)))

parse-pairs_example : (parse requests responses []).replies ≡ (1, 3) ∷ (2, 4) ∷ []
parse-pairs_example = parse-pairs requests responses responses-there

-- A stream of which three bytes are in the cache, and one that is not announced.
abbrev cached : ConcurrentReader
cached = record (new_concurrent_reader (some (record new_reader_stream { initiated = true }))) {
  broadcast = true;
  cache = 1 ∷ 2 ∷ 3 ∷ [];
}

abbrev conn : TcpConn
conn = record (new_tcp_conn (codes "c:9") (codes "s:80") none none) {
  client2server_stream = cached;
}

cached-Sound : Sound cached
unfolding new_concurrent_reader new_reader_stream
cached-Sound = (refl, λ c. absurd cc)

default_parse-TookFromBoth_example : TookFromBoth conn (default_parse (λ r. true) conn)
unfolding new_tcp_conn new_concurrent_reader
default_parse-TookFromBoth_example = default_parse-TookFromBoth (λ r. true) conn cached-Sound refl
