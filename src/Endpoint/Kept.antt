-- ===== src/Endpoint/Kept.antt =====
-- What the loop of `startParseStream` of capturer/capture.go keeps of its endpoints.
use data_collector.Base.{
  ◌≡◌, refl, sym, ap, ◌∙◌, subst, List, [], ◌∷◌, ◌++◌, Option, none, some, inl, inr, Bool-cases,
  Text, text_eq, text_eq_self, text_eq_sound, get, put, get-put_cases, ℤ, ok, arith,
}
use data_collector.Streams.Reader.{StreamReader}
use data_collector.Streams.Concurrent.{new_concurrent_reader}
use data_collector.Common.Address.{TcpAddr}
use data_collector.Endpoint.{TcpConn, new_tcp_conn, StreamType, ServerEndPoint, conn_of, add_stream}
use data_collector.Endpoint.Direction.{Info, parse_failed, undetermined, info, get_info}
use data_collector.Endpoint.Streams.{
  Matched, AllMatched, set_stream_lem, conn_of-Opened, add_stream_run, put-AllMatched,
}
use data_collector.Endpoint.Factory.{
  SingleDirectionStream, DefaultStreamFactory, new_dsf, new_server_endpoint, endpoint_of,
  place_stream, by_info, parse_stream, start_parse_stream,
}

abbrev pub keys : {A : Type 0} → List (Text × A) → List Text
keys [] = []
keys ((k, v) ∷ rest) = k ∷ keys rest

-- The endpoint of a server: it has that server's address, its streams are announced exactly if they are
-- there, and the parses that were started are those of its connections, one each.
pub record WellKept (sa : Text) (e : ServerEndPoint) : Type 0 where
  pub address_is : e.address ≡ sa
  pub matched : AllMatched e
  pub parsed : e.parsing ≡ keys e.conns

abbrev pub AllWellKept : DefaultStreamFactory → Type 0
AllWellKept f =
    (sa : Text) (e : ServerEndPoint) → get sa f.server_endpoints ≡ some e → WellKept sa e

keys-put_known :
    {A : Type 0} (k : Text) (v w : A) (xs : List (Text × A))
    → get k xs ≡ some w
    → keys (put k v xs) ≡ keys xs
unfolding get put
keys-put_known k v w [] e = absurd cc
keys-put_known k v w ((j, u) ∷ rest) e = elim (Bool-cases (text_eq k j)) [
  | inl t ↦ ground (arith, t, text_eq_sound k j t)
  | inr t ↦ ground (arith, t, keys-put_known k v w rest (ground (arith, t, e)))
]

keys-put_new :
    {A : Type 0} (k : Text) (v : A) (xs : List (Text × A))
    → get k xs ≡ none
    → keys (put k v xs) ≡ keys xs ++ k ∷ []
unfolding get put
keys-put_new k v [] e = refl
keys-put_new k v ((j, u) ∷ rest) e = elim (Bool-cases (text_eq k j)) [
  | inl t ↦ absurd (ground (arith, t, e))
  | inr t ↦ ground (arith, t, keys-put_new k v rest (ground (arith, t, e)))
]

-- The parses, when the connection is looked up.
conn_of-keys :
    (ca sa : Text) (s : ServerEndPoint) (o : Option TcpConn)
    → get ca s.conns ≡ o
    → s.parsing ≡ keys s.conns
    → ((conn_of ca sa s o).0.address ≡ s.address)
      × ((conn_of ca sa s o).0.parsing ≡ keys (conn_of ca sa s o).0.conns)
unfolding conn_of
conn_of-keys ca sa s (some c) e h = (refl, h)
conn_of-keys ca sa s none e h = (
  refl,
  ap (λ z. z ++ ca ∷ []) h ∙ sym (keys-put_new ca (new_tcp_conn ca sa none none) s.conns e),
)

add_stream-WellKept :
    (ca sa : Text) (stream : StreamReader) (st : StreamType) (s : ServerEndPoint)
    → WellKept sa s
    → (s' : ServerEndPoint) × (add_stream ca sa stream st s ≡ ok s') × WellKept sa s'
add_stream-WellKept ca sa stream st s v =
    let x = conn_of ca sa s (get ca (s.conns)) in
    let (matched, all, kept, here) = conn_of-Opened ca sa s (get ca (s.conns)) refl v.matched in
    let (c1, run, m, stay) = set_stream_lem st stream x.1 matched in
    let (same, ks) = conn_of-keys ca sa s (get ca (s.conns)) refl v.parsed in
    let s' = record x.0 { conns = put ca c1 (x.0.conns) } in
    (
      s',
      add_stream_run ca sa stream st s c1 (ap (text_eq sa) v.address_is ∙ text_eq_self sa) run,
      record {
        address_is = same ∙ v.address_is;
        matched = put-AllMatched ca c1 x.0 s' refl m all;
        parsed = ks ∙ sym (keys-put_known ca c1 x.1 x.0.conns here);
      },
    )

new_server_endpoint-WellKept :
    (ca sa : Text) → WellKept sa (new_server_endpoint (new_tcp_conn ca sa none none))
unfolding new_server_endpoint new_tcp_conn new_concurrent_reader put get
new_server_endpoint-WellKept ca sa = record {
  address_is = refl;
  matched = λ k c e. elim (Bool-cases (text_eq k ca)) [
    | inl t ↦
        subst Matched (some_conn (new_tcp_conn ca sa none none) c (ground (arith, t, e)))
          (refl, refl)
    | inr t ↦ absurd (ground (arith, t, e))
  ];
  parsed = refl;
}
  where
    some_conn : (c d : TcpConn) → some c ≡ some d → c ≡ d
    some_conn c d e = cc

endpoint_of-WellKept :
    (ca sa : Text) (f : DefaultStreamFactory) (o : Option ServerEndPoint)
    → get sa f.server_endpoints ≡ o
    → AllWellKept f
    → WellKept sa (endpoint_of ca sa o)
unfolding endpoint_of
endpoint_of-WellKept ca sa f (some e) g h = h sa e g
endpoint_of-WellKept ca sa f none g h = new_server_endpoint-WellKept ca sa

some_endpoint : (c d : ServerEndPoint) → some c ≡ some d → c ≡ d
some_endpoint c d e = cc

place_run :
    (ca sa : Text) (st : StreamType) (reader : StreamReader) (f : DefaultStreamFactory)
    (e : ServerEndPoint)
    → add_stream ca sa reader st (endpoint_of ca sa (get sa (f.server_endpoints))) ≡ ok e
    → place_stream ca sa st reader f
      ≡ ok (record f { server_endpoints = put sa e (f.server_endpoints) })
unfolding place_stream
place_run ca sa st reader f e g = rw g

place_stream-AllWellKept :
    (ca sa : Text) (st : StreamType) (reader : StreamReader) (f : DefaultStreamFactory)
    → AllWellKept f
    → (f' : DefaultStreamFactory) × (place_stream ca sa st reader f ≡ ok f') × AllWellKept f'
place_stream-AllWellKept ca sa st reader f h =
    let (e, run, v) =
      add_stream-WellKept ca sa reader st (endpoint_of ca sa (get sa (f.server_endpoints)))
        (endpoint_of-WellKept ca sa f (get sa (f.server_endpoints)) refl h) in
    (
      record f { server_endpoints = put sa e (f.server_endpoints) },
      place_run ca sa st reader f e run,
      λ k d g. elim (get-put_cases sa e (f.server_endpoints) k) [
        | inl p ↦
            subst (λ z. WellKept z d) (sym p.0)
              (subst (WellKept sa) (some_endpoint e d (sym p.1 ∙ g)) v)
        | inr p ↦ h k d (sym p ∙ g)
      ],
    )

module _ (parse_ip : Text → Option Text) (atoi : Text → Option ℤ) (text_of : TcpAddr → Text) where
  by_info-AllWellKept :
      (i : Info) (reader : StreamReader) (f : DefaultStreamFactory)
      → AllWellKept f
      → (f' : DefaultStreamFactory) × (by_info parse_ip atoi text_of i reader f ≡ ok f')
        × AllWellKept f'
  unfolding by_info
  by_info-AllWellKept parse_failed reader f h = (f, refl, h)
  by_info-AllWellKept undetermined reader f h = (f, refl, h)
  by_info-AllWellKept (info c v st) reader f h =
      place_stream-AllWellKept (text_of c) (text_of v) st reader f h

  loop_step :
      (sds : SingleDirectionStream) (rest : List SingleDirectionStream)
      (f f1 : DefaultStreamFactory)
      → parse_stream parse_ip atoi text_of sds f ≡ ok f1
      → start_parse_stream parse_ip atoi text_of (sds ∷ rest) f
        ≡ start_parse_stream parse_ip atoi text_of rest f1
  unfolding start_parse_stream
  loop_step sds rest f f1 e = rw e

  loop-AllWellKept :
      (streams : List SingleDirectionStream) (f : DefaultStreamFactory)
      → AllWellKept f
      → (f' : DefaultStreamFactory) × (start_parse_stream parse_ip atoi text_of streams f ≡ ok f')
        × AllWellKept f'
  unfolding start_parse_stream
  loop-AllWellKept [] f h = (f, refl, h)
  loop-AllWellKept (sds ∷ rest) f h =
      let (f1, run, h1) =
        by_info-AllWellKept (get_info parse_ip atoi text_of (sds.src_end) (sds.dst_end) (f.addrs))
          (sds.reader) f h in
      let (f2, more, h2) = loop-AllWellKept rest f1 h1 in
      (f2, loop_step sds rest f f1 (unfold parse_stream in run) ∙ more, h2)

  -- From a new factory, whatever streams come, in any number and order, the loop takes them all without a
  -- fault. Then each endpoint has the address that it is found under, its streams are announced exactly
  -- if they are there, and exactly one parse was started for each of its connections, in their order.
  pub start_parse_stream-AllWellKept :
      (addrs : List Text) (streams : List SingleDirectionStream)
      → (f : DefaultStreamFactory) × (start_parse_stream parse_ip atoi text_of streams
            (new_dsf addrs)
          ≡ ok f)
        × AllWellKept f
  unfolding new_dsf get
  start_parse_stream-AllWellKept addrs streams =
      loop-AllWellKept streams (new_dsf addrs) (λ sa e g. absurd (ground (arith, g)))
