-- ===== src/Capture/Manager/Updating.antt =====
-- What a configuration message does to the manager of capturer/actor.go.
use data_collector.Base.{
  get, put, get-put, ℕ, ◌≡◌, refl, sym, ◌∙◌, ap, subst, inl, inr, ◌==◌, Bool, false, [], ◌∷◌, ◌++◌,
  All, Option, none, some, if_cases, length, Text, text_eq, ok, arith,
}
use data_collector.Capture.Actor.{addr_update, listen_stream_capture, connect_stream_capture}
use data_collector.Capture.Manager.{
  CaptureConf, ActorWrapper, Pair, sends, CaptureManager, send, update_known, add_captures,
  update_device, process_capture_conf_update,
}
use data_collector.Capture.Manager.Finding.{Present, AllPresent}
use data_collector.Capture.Manager.Adding.{
  get-Present, get-put_other, WhereOk, entry, Kept, spawn_any, register-AllPresent, register_cases,
  known_lem, known-Present, known-captures,
}

module _ (spawn_named : CaptureManager → Text → ℕ × Bool) where
  add_captures-Keeps :
      (conf : CaptureConf) (c : CaptureManager)
      → AllPresent c
      → get (conf.device_name) (c.captures) ≡ none
      → WhereOk (Kept spawn_named conf c) (add_captures spawn_named conf c)
  unfolding add_captures
  add_captures-Keeps conf c h new =
      let P = Kept spawn_named conf c in
      let device = conf.device_name in
      spawn_any spawn_named P device (conf.listen_addrs) listen_stream_capture c _ (λ c1 b1 e1.
        spawn_any spawn_named P device (conf.conn_addrs) connect_stream_capture c1 _ (λ c2 b2 e2.
          let same = e2 ∙ e1 in
          (
            register-AllPresent device _ (_, b2) c2 (subst (All Present) (sym same) h),
            elim (register_cases device _ (_, b2) c2 (ap (get device) same ∙ new)) [
              | inl k ↦ inl (k ∙ same)
              | inr k ↦ inr (new, c, c1, k ∙ ap (λ z. z ++ entry spawn_named device c c1 ∷ []) same)
            ],
          )))

  update_device-Keeps :
      (conf : CaptureConf) (c : CaptureManager) (o : Option Pair)
      → AllPresent c
      → get (conf.device_name) (c.captures) ≡ o
      → WhereOk (Kept spawn_named conf c) (update_device spawn_named conf c o)
  unfolding update_device
  update_device-Keeps conf c none h e = add_captures-Keeps conf c h e
  update_device-Keeps conf c (some v) h e =
      (known-Present conf c v h, inl (known-captures conf c v))

  -- A configuration message, whatever the actor system answers, if both captures of each device were in
  -- the map before it, and it does not fault: they still are, and the map is the old one, or the old one
  -- and, behind it, an entry for the message's device, which was not in it. The entry has a capture of
  -- listen addresses and one of connections, each with the actor that its own spawn gave.
  pub process_capture_conf_update-Keeps :
      (conf : CaptureConf) (c : CaptureManager)
      → AllPresent c
      → WhereOk (Kept spawn_named conf c) (process_capture_conf_update spawn_named conf c)
  unfolding process_capture_conf_update
  process_capture_conf_update-Keeps conf c h =
      if_cases (WhereOk (Kept spawn_named conf c)) (length (conf.device_name) == 0)
        (λ e. (h, inl refl))
        (λ e.
          update_device-Keeps conf
            (record c { capture_confs = put (conf.device_name) conf (c.capture_confs) })
            (get (conf.device_name) (c.captures)) h refl)

  known_run :
      (conf : CaptureConf) (c : CaptureManager) (v : Pair)
      → (length (conf.device_name) == 0) ≡ false
      → get (conf.device_name) (c.captures) ≡ some v
      → process_capture_conf_update spawn_named conf c
        ≡ ok (
            update_known conf
              (record c { capture_confs = put (conf.device_name) conf (c.capture_confs) })
              v)
  unfolding process_capture_conf_update update_device
  known_run conf c v n e = ground (arith, n, e)

  -- For a device whose captures are in the map a configuration message ends without a fault: the new
  -- configuration is kept under the device's name, those of other names are as they were, and both captures, the one of connections too, are
  -- sent the listen addresses, in that order, and nothing else happens.
  pub process_capture_conf_update-known :
      (conf : CaptureConf) (c : CaptureManager) (v : Pair) (d : Text)
      → AllPresent c
      → (length (conf.device_name) == 0) ≡ false
      → get (conf.device_name) (c.captures) ≡ some v
      → text_eq d (conf.device_name) ≡ false
      → (l : ActorWrapper) × (r : ActorWrapper) × (c' : CaptureManager) × (v ≡ (some l, some r))
        × (process_capture_conf_update spawn_named conf c ≡ ok c')
        × (c'.actions
            ≡ c.actions
              ++ sends (l.pid) (addr_update (conf.listen_addrs))
                ∷ sends (r.pid) (addr_update (conf.listen_addrs))
                ∷ [])
        × (c'.captures ≡ c.captures)
        × (get (conf.device_name) (c'.capture_confs) ≡ some conf)
        × (get d (c'.capture_confs) ≡ get d (c.capture_confs))
  unfolding update_known send
  process_capture_conf_update-known conf c v d h n e other =
      let (l, r, p) = get-Present (conf.device_name) (c.captures) v h e in
      let c0 = record c { capture_confs = put (conf.device_name) conf (c.capture_confs) } in
      (
        l,
        r,
        update_known conf c0 (some l, some r),
        p,
        known_run conf c v n e ∙ ap (λ z. ok (update_known conf c0 z)) p,
        known_lem conf c0 l r,
        refl,
        get-put (conf.device_name) conf (c.capture_confs),
        get-put_other (conf.device_name) conf (c.capture_confs) d other,
      )
