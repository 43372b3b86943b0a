-- ===== src/Endpoint/Streams.antt =====
-- What `addStream` of capturer/capture.go does to the connections of a server.
use data_collector.Base.{
  ◌≡◌, refl, sym, ap, ◌∙◌, subst, Bool, true, false, [], ◌∷◌, ◌++◌, Option, none, some, inl, inr,
  Text, text_eq, get, put, get-put, get-put_cases, text_eq, Bool-cases, Result, ok, arith,
}
use data_collector.Streams.Reader.{StreamReader}
use data_collector.Streams.Concurrent.{ConcurrentReader, new_concurrent_reader, set_reader_ready}
use data_collector.Endpoint.{
  TcpConn, new_tcp_conn, set_reader, set_c2s_stream, set_s2c_stream, StreamType,
  client2server_stream_type, server2client_stream_type, ServerEndPoint, set_stream, conn_of,
  add_stream,
}

abbrev pub is_some : Option StreamReader → Bool
is_some none = false
is_some (some r) = true

-- A stream is announced exactly if it is there.
abbrev pub Announced : ConcurrentReader → Type 0
Announced m = m.broadcast ≡ is_some (m.reader)

abbrev pub Matched : TcpConn → Type 0
Matched c = Announced (c.client2server_stream) × Announced (c.server2client_stream)

abbrev pub AllMatched : ServerEndPoint → Type 0
AllMatched s = (k : Text) (c : TcpConn) → get k (s.conns) ≡ some c → Matched c

-- A stream that is there stays.
abbrev pub StreamStays : ConcurrentReader → ConcurrentReader → Type 0
StreamStays m m' = (r : StreamReader) → m.reader ≡ some r → m'.reader ≡ some r

abbrev pub Stay : TcpConn → TcpConn → Type 0
Stay c c' =
    StreamStays (c.client2server_stream) (c'.client2server_stream)
    × StreamStays (c.server2client_stream) (c'.server2client_stream)

set_reader_lem :
    (stream : StreamReader) (m : ConcurrentReader) (o : Option StreamReader)
    → m.reader ≡ o
    → Announced m
    → (m' : ConcurrentReader) × (set_reader stream m o ≡ ok m') × Announced m' × StreamStays m m'
unfolding set_reader set_reader_ready
set_reader_lem stream m none e a =
    let quiet : m.broadcast ≡ false = a ∙ ap is_some e in
    (
      record m { reader = some stream; broadcast = true },
      ground (arith, quiet),
      refl,
      λ r f. absurd (ground (arith, e, f)),
    )
set_reader_lem stream m (some r) e a = (m, refl, a, λ q f. f)

pub set_stream_lem :
    (st : StreamType) (stream : StreamReader) (c : TcpConn)
    → Matched c
    → (c' : TcpConn) × (set_stream st stream c ≡ ok c') × Matched c' × Stay c c'
unfolding set_stream set_c2s_stream set_s2c_stream
set_stream_lem client2server_stream_type stream c h =
    let (m, e, a, s) =
      set_reader_lem stream (c.client2server_stream) (c.client2server_stream.reader) refl h.0 in
    (record c { client2server_stream = m }, ground (arith, e), (a, h.1), (s, λ r f. f))
set_stream_lem server2client_stream_type stream c h =
    let (m, e, a, s) =
      set_reader_lem stream (c.server2client_stream) (c.server2client_stream.reader) refl h.1 in
    (record c { server2client_stream = m }, ground (arith, e), (h.0, a), (λ r f. f, s))

-- The connections of `s` are in `s'`, with the streams that they had.
abbrev pub Kept : ServerEndPoint → ServerEndPoint → Type 0
Kept s s' =
    (k : Text) (c : TcpConn)
    → get k (s.conns) ≡ some c
    → (c' : TcpConn) × (get k (s'.conns) ≡ some c') × Stay c c'

abbrev pub Added : ServerEndPoint → Result ServerEndPoint → Type 0
Added s x = (s' : ServerEndPoint) × (x ≡ ok s') × AllMatched s' × Kept s s'

Kept-refl : (s : ServerEndPoint) → Kept s s
Kept-refl s k c e = (c, e, (λ r f. f, λ r f. f))

some_inj : (c d : TcpConn) → some c ≡ some d → c ≡ d
some_inj c d e = cc

pub put-AllMatched :
    (ca : Text) (c : TcpConn) (s s' : ServerEndPoint)
    → s'.conns ≡ put ca c (s.conns)
    → Matched c
    → AllMatched s
    → AllMatched s'
put-AllMatched ca c s s' e m h k d f = elim (get-put_cases ca c (s.conns) k) [
  | inl g ↦ subst Matched (some_inj c d (sym g.1 ∙ ap (get k) (sym e) ∙ f)) m
  | inr g ↦ h k d (sym g ∙ ap (get k) (sym e) ∙ f)
]

put-Kept :
    (ca : Text) (c : TcpConn) (s s' : ServerEndPoint)
    → s'.conns ≡ put ca c (s.conns)
    → ((d : TcpConn) → get ca (s.conns) ≡ some d → Stay d c)
    → Kept s s'
put-Kept ca c s s' e h k d f = elim (get-put_cases ca c (s.conns) k) [
  | inl g ↦ (c, ap (get k) e ∙ g.1, h d (ap (λ z. get z (s.conns)) (sym g.0) ∙ f))
  | inr g ↦ (d, ap (get k) e ∙ g ∙ f, (λ r y. y, λ r y. y))
]

Kept-trans : (s s1 s2 : ServerEndPoint) → Kept s s1 → Kept s1 s2 → Kept s s2
Kept-trans s s1 s2 a b k c e =
    let (c1, e1, t1) = a k c e in
    let (c2, e2, t2) = b k c1 e1 in (c2, e2, (λ r y. t2.0 r (t1.0 r y), λ r y. t2.1 r (t1.1 r y)))

-- The connection that a stream is added to, and the endpoint that has it.
abbrev pub Opened : Text → ServerEndPoint → ServerEndPoint × TcpConn → Type 0
Opened ca s x = Matched x.1 × AllMatched x.0 × Kept s x.0 × (get ca (x.0.conns) ≡ some x.1)

pub conn_of-Opened :
    (ca sa : Text) (s : ServerEndPoint) (o : Option TcpConn)
    → get ca (s.conns) ≡ o
    → AllMatched s
    → Opened ca s (conn_of ca sa s o)
unfolding conn_of new_tcp_conn new_concurrent_reader
conn_of-Opened ca sa s (some c) e h = (h ca c e, h, Kept-refl s, e)
conn_of-Opened ca sa s none e h =
    let c = new_tcp_conn ca sa none none in
    let s0 = record s { conns = put ca c (s.conns); parsing = s.parsing ++ ca ∷ [] } in
    (
      (refl, refl),
      put-AllMatched ca c s s0 refl (refl, refl) h,
      put-Kept ca c s s0 refl (λ d f. absurd (ground (arith, e, f))),
      get-put ca c (s.conns),
    )

pub add_stream_run :
    (ca sa : Text) (stream : StreamReader) (st : StreamType) (s : ServerEndPoint) (c1 : TcpConn)
    → text_eq sa (s.address) ≡ true
    → set_stream st stream (conn_of ca sa s (get ca (s.conns))).1 ≡ ok c1
    → add_stream ca sa stream st s
      ≡ ok (record (conn_of ca sa s (get ca (s.conns))).0 {
        conns = put ca c1 (conn_of ca sa s (get ca (s.conns))).0.conns;
      })
unfolding add_stream
add_stream_run ca sa stream st s c1 e f = ground (arith, e, f)

add_stream_other :
    (ca sa : Text) (stream : StreamReader) (st : StreamType) (s : ServerEndPoint)
    → text_eq sa (s.address) ≡ false
    → add_stream ca sa stream st s ≡ ok s
unfolding add_stream
add_stream_other ca sa stream st s e = ground (arith, e)

-- If every stream of an endpoint is announced exactly if it is there, a stream can be added without a
-- fault, whichever it is: the same holds after it, and every connection is still there, with the
-- streams that it had.
pub add_stream-Added :
    (ca sa : Text) (stream : StreamReader) (st : StreamType) (s : ServerEndPoint)
    → AllMatched s
    → Added s (add_stream ca sa stream st s)
add_stream-Added ca sa stream st s h = elim (Bool-cases (text_eq sa (s.address))) [
  | inr e ↦ (s, add_stream_other ca sa stream st s e, h, Kept-refl s)
  | inl e ↦
      let x = conn_of ca sa s (get ca (s.conns)) in
      let (matched, all, kept, here) = conn_of-Opened ca sa s (get ca (s.conns)) refl h in
      let (c1, run, m, stay) = set_stream_lem st stream x.1 matched in
      let s' = record x.0 { conns = put ca c1 (x.0.conns) } in
      (
        s',
        add_stream_run ca sa stream st s c1 e run,
        put-AllMatched ca c1 x.0 s' refl m all,
        Kept-trans s x.0 s' kept (
            put-Kept ca c1 x.0 s' refl
              (λ d f. subst (λ z. Stay z c1) (some_inj x.1 d (sym here ∙ f)) stay)),
      )
]
