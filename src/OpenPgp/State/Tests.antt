-- ===== src/OpenPgp/State/Tests.antt =====
-- Runs of openpgp_state.c on concrete chips, and the properties at concrete inputs.
use nixtropic.Base.{◌+◌, ◌%◌, ◌^◌, [], ◌∷◌, ◌≡◌, refl, true, arith, bytes_eq}
use nixtropic.Tropic.SampleChip.{
  Store, good_chip, good_chip-Works, byte_chip, byte_chip_bytes, hash, hash_length,
}
use nixtropic.Tropic.RecPair.{rec_pair_write, rec_pair_init, rec_pair_read, encode, valid}
use nixtropic.OpenPgp.State.Record.{IsSized, o3_bytes, defaults, zeros}
use nixtropic.OpenPgp.State.Invariant.{IsSound, openpgp_state_init-IsSound}
use nixtropic.OpenPgp.State.Effects.{
  set, set_rc_set, set_uif, sig_counter_increment, set_lang, failed_setter_keeps,
  sig_counter_increment_adds,
}
use nixtropic.OpenPgp.State.Session.{
  load, activate, reboot, init, setter, run, started, started-IsSound, calls-IsSound,
  permanent_uif_stays, load_after_reboot,
}
use nixtropic.OpenPgp.State.{
  commit, openpgp_state_set_uif, Pgp, usable, pgp_lc_operational, pgp_lc_terminated,
  openpgp_state_load, openpgp_state_init, openpgp_state_sig_counter_increment, count_of,
}

abbrev blank : Store
blank j = []

-- A card initialised in the factory state.
abbrev card : Pgp good_chip
card = (openpgp_state_init hash good_chip pgp_lc_operational (started hash good_chip blank)).1

card-IsSound : IsSound hash good_chip card
card-IsSound =
    openpgp_state_init-IsSound hash good_chip hash_length pgp_lc_operational
      (started hash good_chip blank) (started-IsSound hash good_chip blank)

card-usable : usable good_chip card ≡ true
unfolding usable openpgp_state_init rec_pair_init encode bytes_eq o3_bytes defaults
card-usable = refl

zeros-IsSized : IsSized (zeros 1)
zeros-IsSized = record {
  name = refl;
  lang = refl;
  fpr_sig = refl;
  fpr_dec = refl;
  fpr_aut = refl;
  gentime_sig = refl;
  gentime_dec = refl;
  gentime_aut = refl;
  sigcnt = refl;
  dec_pub = refl;
  nonce = refl;
  ct = refl;
  tag = refl;
}

load_after_reboot_example :
    let (rc, g') = openpgp_state_load hash good_chip (started hash good_chip card.chip) in
    (rc ≡ 0) × (g'.cur ≡ card.cur) × (usable good_chip g' ≡ true)
load_after_reboot_example =
    load_after_reboot hash good_chip card good_chip-Works card-IsSound card-usable

calls-IsSound_example : IsSound hash byte_chip (
    run hash byte_chip
      (load
        ∷ init pgp_lc_operational
        ∷ setter (set_lang (0x66 ∷ 0x72 ∷ []))
        ∷ setter sig_counter_increment
        ∷ reboot
        ∷ load
        ∷ setter (set_uif 2)
        ∷ init pgp_lc_terminated
        ∷ activate
        ∷ [])
      (started hash byte_chip blank))
calls-IsSound_example =
    calls-IsSound hash byte_chip hash_length byte_chip_bytes
      (load
        ∷ init pgp_lc_operational
        ∷ setter (set_lang (0x66 ∷ 0x72 ∷ []))
        ∷ setter sig_counter_increment
        ∷ reboot
        ∷ load
        ∷ setter (set_uif 2)
        ∷ init pgp_lc_terminated
        ∷ activate
        ∷ [])
      (started hash byte_chip blank) (tt, (tt, (refl, (tt, (tt, (tt, (tt, (tt, (tt, tt)))))))))
      (started-IsSound hash byte_chip blank)

-- A card with a permanent UIF.
abbrev permanent : Pgp good_chip
permanent = (set hash good_chip (set_uif 2) card).1

permanent_uif_stays_example :
    (run hash good_chip
      (setter (set_uif 0) ∷ activate ∷ setter (set_rc_set 1) ∷ [])
      permanent).cur.uif
    ≡ 2
unfolding set usable openpgp_state_init rec_pair_init rec_pair_write rec_pair_read encode valid
    bytes_eq openpgp_state_set_uif commit defaults o3_bytes
permanent_uif_stays_example =
    permanent_uif_stays hash good_chip (setter (set_uif 0) ∷ activate ∷ setter (set_rc_set 1) ∷ [])
      permanent (tt, (tt, (tt, tt))) refl refl

failed_setter_keeps_example : (set hash good_chip (set_uif 3) card).1.cur ≡ card.cur
unfolding set openpgp_state_set_uif
failed_setter_keeps_example = failed_setter_keeps hash good_chip (set_uif 3) card tt (omega arith)

sig_counter_increment_adds_example :
    let new = (openpgp_state_sig_counter_increment hash good_chip card).1.cur in
    (count_of new.sigcnt ≡ (count_of card.cur.sigcnt + 1) % 2 ^ 24)
    × (record new { sigcnt = card.cur.sigcnt } ≡ card.cur)
unfolding usable openpgp_state_init rec_pair_init rec_pair_write rec_pair_read encode valid bytes_eq
    openpgp_state_sig_counter_increment commit defaults o3_bytes
sig_counter_increment_adds_example = sig_counter_increment_adds hash good_chip card refl
