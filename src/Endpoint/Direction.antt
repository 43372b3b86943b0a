-- ===== src/Endpoint/Direction.antt =====
-- Which end of a stream is the server: `distinguishStreamDrc` and `getInfo` of capturer/capture.go.
use data_collector.Base.{
  ◌≡◌, refl, ◌==◌, ◌&&◌, ◌||◌, Bool, true, false, List, [], ◌∷◌, ◌++◌, Option, none, some,
  if◌then◌else◌, Text, ℤ, ap, ◌∙◌, arith, All,
}
use data_collector.Common.Address.{TcpAddr, parse_ip_and_port}
use data_collector.Endpoint.{StreamType, client2server_stream_type, server2client_stream_type}

-- `strings.Contains`
unfoldable pub is_prefix : Text → Text → Bool
is_prefix [] ys = true
is_prefix (x ∷ xs) [] = false
is_prefix (x ∷ xs) (y ∷ ys) = x == y && is_prefix xs ys

unfoldable pub contains : Text → Text → Bool
unfolding is_prefix
contains [] t = is_prefix t []
contains (x ∷ xs) t = is_prefix t (x ∷ xs) || contains xs t

-- The two pointers that `distinguishStreamDrc` is given.
pub data End : Type 0 where
  src dst : End

-- The client and the server, or none.
unfoldable pub distinguish_stream_drc : Text → Text → List Text → Option (End × End)
unfolding contains
distinguish_stream_drc s d [] = none
distinguish_stream_drc s d (a ∷ rest) =
    let further = distinguish_stream_drc s d rest in
    if contains a s then some (dst, src) else if contains a d then some (src, dst) else further

-- The first address that contains one of the two texts decides, here for that of the second one.
first_match :
    (s d : Text) (before : List Text) (t : Text) (behind : List Text)
    → All (λ u. (contains u s || contains u d) ≡ false) before
    → contains t d ≡ true
    → contains t s ≡ false
    → (distinguish_stream_drc s d (before ++ t ∷ behind) ≡ some (src, dst))
      × (distinguish_stream_drc d s (before ++ t ∷ behind) ≡ some (dst, src))
unfolding distinguish_stream_drc
first_match s d [] t behind apart has lacks =
    (ground (arith, has, lacks), ground (arith, has, lacks))
first_match s d (u ∷ us) t behind apart has lacks =
    let later = first_match s d us t behind apart.1 has lacks in
    (ground (arith, apart.0, later.0), ground (arith, apart.0, later.1))

-- `getInfo`: an address that cannot be parsed, two that leave the direction open, or the client, the
-- server and the type of the stream.
pub data Info : Type 0 where
  parse_failed undetermined : Info
  info : TcpAddr → TcpAddr → StreamType → Info

unfoldable pub pick : TcpAddr → TcpAddr → End → TcpAddr
pick s d src = s
pick s d dst = d

unfoldable pub stream_type : End → StreamType
stream_type src = client2server_stream_type
stream_type dst = server2client_stream_type

-- An end of a flow is its address and its port; `text_of` is `TCPAddr.String`.
module _ (parse_ip : Text → Option Text) (atoi : Text → Option ℤ) (text_of : TcpAddr → Text) where
  unfoldable pub info_of : TcpAddr → TcpAddr → Option (End × End) → Info
  unfolding pick stream_type
  info_of s d none = undetermined
  info_of s d (some (c, v)) = info (pick s d c) (pick s d v) (stream_type c)

  unfoldable pub get_info : Text × Text → Text × Text → List Text → Info
  unfolding info_of distinguish_stream_drc parse_ip_and_port
  get_info s d addrs = elim (parse_ip_and_port parse_ip atoi s.0 s.1) [
    | none ↦ parse_failed
    | some a ↦ elim (parse_ip_and_port parse_ip atoi d.0 d.1) [
      | none ↦ parse_failed
      | some b ↦ info_of a b (distinguish_stream_drc (text_of a) (text_of b) addrs)
    ]
  ]

module _ (parse_ip : Text → Option Text) (atoi : Text → Option ℤ) (text_of : TcpAddr → Text) where
  to_server :
      (a b : TcpAddr)
      → info_of parse_ip atoi text_of a b (some (src, dst)) ≡ info a b client2server_stream_type
  unfolding info_of pick stream_type
  to_server a b = refl

  to_client :
      (a b : TcpAddr)
      → info_of parse_ip atoi text_of b a (some (dst, src)) ≡ info a b server2client_stream_type
  unfolding info_of pick stream_type
  to_client a b = refl

  info_run :
      (s d : Text × Text) (a b : TcpAddr) (addrs : List Text)
      → parse_ip_and_port parse_ip atoi s.0 s.1 ≡ some a
      → parse_ip_and_port parse_ip atoi d.0 d.1 ≡ some b
      → get_info parse_ip atoi text_of s d addrs
        ≡ info_of parse_ip atoi text_of a b (distinguish_stream_drc (text_of a) (text_of b) addrs)
  unfolding get_info
  info_run s d a b addrs e f = ground (arith, e, f)

  -- Of the two ends of a stream, whose addresses can be parsed: if the first address of the capture that
  -- contains the text of one of them contains that of b, and not that of a, then b is the server. The
  -- stream from a to b goes from the client to the server, and the one from b to a from the server to the
  -- client, and both have client a and server b.
  pub get_info-server :
      (s d : Text × Text) (a b : TcpAddr) (before : List Text) (t : Text) (behind : List Text)
      → parse_ip_and_port parse_ip atoi s.0 s.1 ≡ some a
      → parse_ip_and_port parse_ip atoi d.0 d.1 ≡ some b
      → All (λ u. (contains u (text_of a) || contains u (text_of b)) ≡ false) before
      → contains t (text_of b) ≡ true
      → contains t (text_of a) ≡ false
      → (get_info parse_ip atoi text_of s d (before ++ t ∷ behind)
          ≡ info a b client2server_stream_type)
        × (get_info parse_ip atoi text_of d s (before ++ t ∷ behind)
            ≡ info a b server2client_stream_type)
  get_info-server s d a b before t behind e f apart has lacks =
      let found = first_match (text_of a) (text_of b) before t behind apart has lacks in
      (
        info_run s d a b (before ++ t ∷ behind) e f
            ∙ ap (info_of parse_ip atoi text_of a b) found.0
            ∙ to_server a b,
        info_run d s b a (before ++ t ∷ behind) f e
            ∙ ap (info_of parse_ip atoi text_of b a) found.1
            ∙ to_client a b,
      )
