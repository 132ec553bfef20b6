-- ===== src/Client/Lossless.antt =====
-- What a success of src/client.rs says of its writes.
use replstoke.Common.{
  ℕ, zero, suc, ◌+◌, ◌≡◌, ◌∙◌, ◌⊎◌, inl, inr, refl, sym, ap, [], ◌∷◌, Option, none, some, Bytes,
  bytes_eq, length, ok, err, Option-cases, Bool-cases,
}
use replstoke.Error.{AppError}
use replstoke.Protocol.Types.{IoError, Packet, stream_out, stream_err, stream_ctl}
use replstoke.Protocol.Read.{Source}
use replstoke.Protocol.Ctl.{parse_ctl, Ctl}
use replstoke.Strings.Utf8.{from_utf8_lossy}
use replstoke.Client.{
  OwnStreams, Settings, Reader, Output, Verdict, ignore, write_to, write_out, write_err,
  write_failure, feed, on_out, on_err, on_ctl, on_packet, on_close, closed_out, closed_err, held,
  read_loop, protocol_failure, start, read_protocol,
}
use replstoke.Client.Reading.{failed, panics, closed, packet, reading, goes_on, stops}

-- Own streams that take every write.
abbrev pub sure : OwnStreams
sure = record { out_fails = λ b. none; err_fails = λ b. none; flush_fails = λ b. none }

write_to-cases :
    (fails : Bytes → Option IoError) (written b : Bytes)
    → (write_to fails written b ≡ write_to (λ x. none) written b)
      ⊎ ((e : IoError) × ((write_to fails written b).1 ≡ some e))
unfolding write_to
write_to-cases fails written [] = inl refl
write_to-cases fails written (x ∷ b) = elim (Option-cases (fails written)) [
  | inl works ↦ inl (rw works refl)
  | inr (e, breaks) ↦ inr (e, rw breaks refl)
]

-- A verdict of failure.
abbrev Fails : Reader × Verdict → Type 0
Fails x = (e : AppError) × (x.1 ≡ some (err e))

module _ (own : OwnStreams) where
  on_out-cases :
      (r : Reader) (b : Bytes) → (on_out own r b ≡ on_out sure r b) ⊎ Fails (on_out own r b)
  unfolding on_out write_out
  on_out-cases r b =
      let out = (feed r.out_scanner b).1 in
      elim (write_to-cases own.out_fails r.written.out out) [
        | inl same ↦ inl (rw same refl)
        | inr (e, breaks) ↦ inr (write_failure e, rw breaks refl)
      ]

  on_err-cases :
      (r : Reader) (b : Bytes) → (on_err own r b ≡ on_err sure r b) ⊎ Fails (on_err own r b)
  unfolding on_err write_err
  on_err-cases r b =
      let out = (feed r.err_scanner b).1 in
      elim (write_to-cases own.err_fails r.written.err_out out) [
        | inl same ↦ inl (rw same refl)
        | inr (e, breaks) ↦ inr (write_failure e, rw breaks refl)
      ]

  on_ctl-same :
      (cfg : Settings) (text : Bytes) (c : Ctl) (r : Reader)
      → cfg.ctl ≡ ignore
      → on_ctl own cfg text c r ≡ on_ctl sure cfg text c r
  unfolding on_ctl
  on_ctl-same cfg text (Ctl.error m) r silent = refl
  on_ctl-same cfg text (Ctl.status m) r silent = rw silent refl
  on_ctl-same cfg text (Ctl.other m) r silent = rw silent refl

  on_packet-cases :
      (cfg : Settings) (r : Reader) (k : Packet)
      → cfg.ctl ≡ ignore
      → (on_packet own cfg r k ≡ on_packet sure cfg r k) ⊎ Fails (on_packet own cfg r k)
  unfolding on_packet
  on_packet-cases cfg r k silent = elim (Bool-cases (bytes_eq k.stream stream_out)) [
    | inl e ↦ rw e (on_out-cases r k.payload)
    | inr e ↦ elim (Bool-cases (bytes_eq k.stream stream_err)) [
      | inl f ↦ rw (e, f) (on_err-cases r k.payload)
      | inr f ↦ elim (Bool-cases (bytes_eq k.stream stream_ctl)) [
        | inl g ↦
            rw (e, f, g)
              (inl (on_ctl-same cfg (from_utf8_lossy k.payload) (parse_ctl k.payload) r silent))
        | inr g ↦ rw (e, f, g) (inl refl)
      ]
    ]
  ]

  closed_err-Fails :
      (r : Reader) (x : Output × Option IoError) → (e : AppError) × ((closed_err r x).1 ≡ err e)
  unfolding closed_err
  closed_err-Fails r (w, none) = (_, refl)
  closed_err-Fails r (w, some e) = (_, refl)

  closed_out-Fails :
      (r : Reader) (x : Output × Option IoError) → (e : AppError) × ((closed_out own r x).1 ≡ err e)
  unfolding closed_out
  closed_out-Fails r (w, none) = closed_err-Fails r (write_err own (held r.err_scanner) w)
  closed_out-Fails r (w, some e) = (_, refl)

  on_close-Fails : (r : Reader) → (e : AppError) × ((on_close own r).1 ≡ err e)
  unfolding on_close
  on_close-Fails r = closed_out-Fails r (write_out own (held r.out_scanner) r.written)

  not_ok :
      {x : Reader × Verdict} (w : Reader) (e : AppError)
      → x.1 ≡ some (err e)
      → x ≡ (w, some (ok tt))
      → ⊥
  not_ok w e bad good = cc

  no_result : {x : Reader × Verdict} (w : Reader) → x.1 ≡ none → x ≡ (w, some (ok tt)) → ⊥
  no_result w bad good = cc

  loop_lossless :
      (fuel : ℕ) (cfg : Settings) (r w : Reader) (s : Source)
      → cfg.ctl ≡ ignore
      → read_loop fuel own cfg r s ≡ (w, some (ok tt))
      → read_loop fuel sure cfg r s ≡ (w, some (ok tt))
  unfolding read_loop
  loop_lossless zero cfg r w s silent h = cc
  loop_lossless (suc fuel) cfg r w s silent h = elim (reading s) [
    | failed e d ↦ absurd (not_ok w (protocol_failure e) (rw (read_loop, d) refl) h)
    | panics d ↦
        let none_at : (read_loop (suc fuel) own cfg r s).1 ≡ none = rw (read_loop, d) refl in
        absurd (no_result w none_at h)
    | closed t d ↦
        let (e, bad) = on_close-Fails r in absurd (not_ok w e (rw (read_loop, d) (ap some bad)) h)
    | packet k t d ↦ elim (on_packet-cases cfg r k silent) [
      | inr (e, breaks) ↦
          absurd (not_ok w e (ap (λ x. x.1) (stops fuel own cfg r s t k (err e) d breaks)) h)
      | inl same ↦ elim (Option-cases ((on_packet own cfg r k).1)) [
        | inl on ↦
            let on' : (on_packet sure cfg r k).1 ≡ none = rw (← same) on in
            let rest : read_loop fuel own cfg (on_packet own cfg r k).0 t ≡ (w, some (ok tt)) =
              sym (goes_on fuel own cfg r s t k d on) ∙ h in
            goes_on fuel sure cfg r s t k d on'
            ∙ ap (λ x. read_loop fuel sure cfg x.0 t) (sym same)
            ∙ loop_lossless fuel cfg (on_packet own cfg r k).0 w t silent rest
        | inr (v, off) ↦
            let off' : (on_packet sure cfg r k).1 ≡ some v = rw (← same) off in
            stops fuel sure cfg r s t k v d off'
            ∙ ap (λ x. (x.0, some v)) (sym same)
            ∙ sym (stops fuel own cfg r s t k v d off)
            ∙ h
      ]
    ]
  ]

  -- If the client ignores the server's messages and read_protocol succeeds, then what it gave to
  -- stdout and stderr is what it gives, with the same success, to own streams on which no write and
  -- no flush fails: a write that fails never passes for a complete response, while a failed flush
  -- behind the marker does.
  pub success_lossless :
      (cfg : Settings) (s : Source) (w : Output)
      → cfg.ctl ≡ ignore
      → read_protocol own cfg s ≡ (w, some (ok tt))
      → read_protocol sure cfg s ≡ (w, some (ok tt))
  unfolding read_protocol
  success_lossless cfg s w silent h =
      let x = read_loop (length s.pending + 1) own cfg (start cfg) s in
      let ended : x ≡ (x.0, some (ok tt)) = (λ i. (x.0, (h i).1)) in
      let same = loop_lossless (length s.pending + 1) cfg (start cfg) x.0 s silent ended in
      ap (λ y. (y.0.written, y.1)) same ∙ (λ i. ((h i).0, some (ok tt)))
