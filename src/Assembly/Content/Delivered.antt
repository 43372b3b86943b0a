-- ===== src/Assembly/Content/Delivered.antt =====
-- What `deliver` of capturer/extendedassembly.go hands to the stream, as a stretch of the stream that was
-- sent.
use data_collector.Base.{
  ℕ, true, ◌<◌, ◌⊎◌, ◌^◌, ◌+◌, ◌≤◌, ◌≡◌, ◌≢◌, refl, ◌∙◌, List, [], ◌∷◌, ◌++◌, append_assoc, some,
  length, pos, false, inl, inr, Bool-cases, ok,
}
use data_collector.Assembly.Page.{Reassembly}
use data_collector.Assembly.Segment.{Tcp}
use data_collector.Assembly.Work.{
  Work, Event, reassembled, reassembly_complete, has_contiguous, deliver,
}
use data_collector.Assembly.Work.Inv.{WorkInv}
use data_collector.Assembly.Work.Ready.{Ready}
use data_collector.Assembly.Work.Send.{
  last_of_nonempty, sent, sent-WorkInv, deliver_open, deliver_end,
}
use data_collector.Assembly.Work.Close.{close_connection-Closed}
use data_collector.Assembly.Content.Stretch.{IsStretch}
use data_collector.Assembly.Content.Contiguous.{bytes_of, AllWithin}

-- An open connection that waits for e, its list within the window, and the pages in it with their parts of
-- the stream.
pub record Reading (b : ℕ → ℕ) (lo hi e s : ℕ) (rest : List ℕ) (w : Work) : Type 0 where
  pub ids : List ℕ
  pub ready : Ready w s ids rest
  pub expects : w.conn.next_seq ≡ pos e
  pub from_lo : lo ≤ e
  pub to_hi : e ≤ hi
  pub within : AllWithin b lo hi w.pc.pages ids

-- One call of `Reassembled`, and perhaps the last one of the stream. Its bytes go on at e, without a gap
-- and with nothing twice, at least to the packet's end, and what follows them is expected next, unless
-- the connection is closed.
pub record Delivered (b : ℕ → ℕ) (lo hi e : ℕ) (t : Tcp) (w : Work) (s : ℕ) (rest : List ℕ)
    (w' : Work) : Type 0 where
  pub parts : List Reassembly
  pub last_calls : List Event
  pub events_are : w'.events ≡ w.events ++ reassembled s parts ∷ last_calls
  pub same_options : w'.options ≡ w.options
  pub goes_on : IsStretch b e (bytes_of parts)
  pub reaches : t.seq + length t.payload ≤ e + length (bytes_of parts)
  pub ending :
      ((w'.conn.closed ≡ true) × (last_calls ≡ reassembly_complete s ∷ []))
      ⊎ ((last_calls ≡ []) × Reading b lo hi (e + length (bytes_of parts)) s rest w')

-- What the stream is handed.
pub delivers :
    (b : ℕ → ℕ) (lo hi e : ℕ) (w : Work) (s : ℕ) (ids rest : List ℕ)
    → WorkInv w ids rest
    → has_contiguous w ≡ false
    → w.conn.closed ≡ false
    → w.conn.stream ≡ some s
    → w.conn.next_seq ≡ pos e
    → e < 2 ^ 32
    → lo ≤ e
    → e ≤ hi
    → AllWithin b lo hi w.pc.pages ids
    → w.ret ≢ []
    → (w' : Work) × (last : List Event) × (deliver w ≡ ok w')
      × (w'.events ≡ w.events ++ reassembled s w.ret ∷ last)
      × (w'.options ≡ w.options)
      × (((w'.conn.closed ≡ true) × (last ≡ reassembly_complete s ∷ []))
          ⊎ ((last ≡ []) × Reading b lo hi e s rest w'))
unfolding has_contiguous
delivers b lo hi e w s ids rest v waits op has next small l h all ne =
    let (r, is_last) = last_of_nonempty w.ret ne in
    elim (Bool-cases r.end) [
      | inr goes_on ↦ (
        sent w s,
        [],
        deliver_open w s r has is_last goes_on,
        refl,
        refl,
        inr (
          refl,
          record {
            ids = ids;
            ready = record {
              inv = sent-WorkInv w s ids rest v;
              waits = waits;
              is_open = op;
              has_stream = has;
              range = inr (e, next, small);
            };
            expects = next;
            from_lo = l;
            to_hi = h;
            within = all;
          },
        ),
      )
      | inl ends ↦
          let (w', run, c) =
            close_connection-Closed (sent w s) s ids rest (sent-WorkInv w s ids rest v) has in
          (
            w',
            reassembly_complete s ∷ [],
            deliver_end w s r has is_last ends ∙ run,
            c.told ∙ append_assoc w.events (reassembled s w.ret ∷ []) _,
            c.same_options,
            inl (c.closed, refl),
          )
    ]
