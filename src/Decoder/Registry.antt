-- ===== src/Decoder/Registry.antt =====
-- The registry of decoders of capturer/decoder.go. A decoder is of any type D; calling its factory is
-- the value that it gives.
use data_collector.Base.{
  ◌≡◌, ◌≢◌, ap, List, [], ◌∷◌, Option, none, some, Text, get, put, get-put, get-put_cases, inl, inr,
}

module _ {D : Type 0} where
  -- `RegisterDecoder`
  unfoldable pub register_decoder : Text → D → List (Text × D) → List (Text × D)
  unfolding put
  register_decoder name decoder ds = put name decoder ds

  abbrev pub or_default : D → Option D → D
  or_default d none = d
  or_default d (some x) = x

  -- `GetDecoder`, with the default decoder.
  unfoldable pub get_decoder : D → Text → List (Text × D) → D
  unfolding get
  get_decoder default name ds = or_default default (get name ds)

  -- `GetDecoders`
  unfoldable pub get_decoders : List (Text × D) → List D
  get_decoders [] = []
  get_decoders ((name, d) ∷ rest) = d ∷ get_decoders rest

  -- A decoder that is registered is the one that its name gives from then on, also where the name was
  -- taken; every other name gives what it gave.
  pub get_decoder-register_decoder :
      (default decoder : D) (name other : Text) (ds : List (Text × D))
      → (get_decoder default name (register_decoder name decoder ds) ≡ decoder)
        × (other ≢ name
            → get_decoder default other (register_decoder name decoder ds)
              ≡ get_decoder default other ds)
  unfolding get_decoder register_decoder
  get_decoder-register_decoder default decoder name other ds = (
    ap (or_default default) (get-put name decoder ds),
    λ ne. elim (get-put_cases name decoder ds other) [
      | inl h ↦ absurd (ne h.0)
      | inr h ↦ ap (or_default default) h
    ],
  )
