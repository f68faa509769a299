-- ===== src/Quota/Saved.antt =====
-- What a restart reads back from the file that the limiter wrote.
use eqrcp.Base.{
  ◌+◌, ◌≤◌, ◌≡◌, ◌≢◌, refl, sym, ap, ◌∙◌, ◌⊎◌, inl, inr, String, Bool, true, false, some, arith,
  eq_iff, ◌=ₛ◌,
}
use eqrcp.Base.Int.{ℤ, pos, leb_ℤ}
use eqrcp.Base.Clock.{Time}
use eqrcp.Quota.Usage.{
  ChatUsage, Host, last_seen_tolerance, compute_usage_mac, mac_valid, rollback_detected,
}
use eqrcp.Quota.Load.{
  Moment, ChatLimiter, read_file, judge, judge_file, save_due, save_usage_locked, reload,
  load_usage_locked, check_license_validity, stamp,
}
use eqrcp.Quota.Locks.{ReadsFile, load_reads, saved_file}

-- The counters of two records agree.
abbrev pub SameCounters : ChatUsage → ChatUsage → Type 0
SameCounters u v =
    (u.used_seconds ≡ v.used_seconds)
    × (u.used_transfers ≡ v.used_transfers)
    × (u.used_receive_transfers ≡ v.used_receive_transfers)

-- The record of a file after an edit: other counters, no signature and no anchor.
abbrev pub unsigned : ChatUsage → (seconds transfers receive_transfers : ℤ) → ChatUsage
unsigned u seconds transfers receive_transfers = record u {
  used_seconds = seconds;
  used_transfers = transfers;
  used_receive_transfers = receive_transfers;
  mac = "";
  last_seen = "";
}

judge-SameCounters :
    (t : Moment) (old : Bool) (u : ChatUsage)
    → leb_ℤ (pos 600) u.used_seconds ≡ false
    → SameCounters (judge t false false old u).usage u
      × ((judge t false false old u).usage.is_paid ≡ u.is_paid)
unfolding judge
judge-SameCounters t old u e = ground arith

module _ (h : Host) where
  stamp-mac :
      (t : Moment) (u : ChatUsage)
      → (stamp h t u).mac ≡ compute_usage_mac h (stamp h t u) t.machine_key
  unfolding compute_usage_mac
  stamp-mac t u = refl

  mac_valid_same :
      (u : ChatUsage) (key : String) → u.mac ≡ compute_usage_mac h u key → mac_valid h u key ≡ true
  unfolding mac_valid
  mac_valid_same u key e = ground (arith, eq_iff u.mac (compute_usage_mac h u key))

  mac_valid_unkeyed :
      (u : ChatUsage) (key : String) → u.mac ≡ compute_usage_mac h u "" → mac_valid h u key ≡ true
  unfolding mac_valid
  mac_valid_unkeyed u key e = ground (
    arith,
    eq_iff u.mac (compute_usage_mac h u ""),
    eq_iff key "",
    λ (k : key ≡ ""). mac_valid_same u key (e ∙ ap (compute_usage_mac h u) (sym k)),
  )

  stamp-mac_valid :
      (t : Moment) (u : ChatUsage) (key : String)
      → (key ≡ t.machine_key) ⊎ (t.machine_key ≡ "")
      → mac_valid h (stamp h t u) key ≡ true
  stamp-mac_valid t u key (inl same) =
      mac_valid_same (stamp h t u) key
        (stamp-mac t u ∙ ap (compute_usage_mac h (stamp h t u)) (sym same))
  stamp-mac_valid t u key (inr unkeyed) =
      mac_valid_unkeyed (stamp h t u) key
        (stamp-mac t u ∙ ap (compute_usage_mac h (stamp h t u)) unkeyed)

  no_rollback :
      (u : ChatUsage) (ref_time seen : Time)
      → h.parse_rfc3339 u.last_seen ≡ some seen
      → seen ≤ ref_time + last_seen_tolerance
      → rollback_detected h u ref_time ≡ false
  unfolding rollback_detected
  no_rollback u ref_time seen parsed early = rw parsed (ground arith)

  -- A restart keeps the counters of the day: when the file holds what a call wrote on the same day,
  -- with less than 600 seconds used, under the same device key or before the device had one, a call
  -- that reads it not more than ten minutes before its anchor answers with the same three counters,
  -- and with the paid status of the license; so the file that the limiter wrote is never taken for
  -- an edited one.
  pub save_load_roundtrip :
      (l l' : ChatLimiter) (t t' : Moment) (u : ChatUsage) (seen : Time)
      → t.write_ok ≡ true
      → u.date ≢ ""
      → u.date ≡ h.format_date t'.net_time
      → leb_ℤ (pos 600) u.used_seconds ≡ false
      → (t'.machine_key ≡ t.machine_key) ⊎ (t.machine_key ≡ "")
      → h.parse_rfc3339 (h.format_rfc3339 t.net_time_now) ≡ some seen
      → seen ≤ t'.net_time + last_seen_tolerance
      → l'.file ≡ (save_usage_locked h l t u).file
      → ReadsFile h l' t'
      → SameCounters (load_usage_locked h l' t').1 u
        × ((load_usage_locked h l' t').1.is_paid ≡ t'.license.paid)
  unfolding reload judge_file read_file check_license_validity
  save_load_roundtrip l l' t t' u seen w dated today below key parsed early same reads =
      let e = same ∙ saved_file h l t u w in
      let has_date : (u.date =ₛ "") ≡ false = ground (arith, eq_iff u.date "") in
      let is_today : (u.date =ₛ h.format_date t'.net_time) ≡ true =
        ground (arith, eq_iff u.date (h.format_date t'.net_time)) in
      rw
        (
          load_reads h l' t' reads,
          e,
          has_date,
          is_today,
          stamp-mac_valid t u t'.machine_key key,
          no_rollback (stamp h t u) t'.net_time seen parsed early,
        )
        (judge-SameCounters t' u.clock_tampered _ below)

  unsigned_due :
      (l : ChatLimiter) (t : Moment) (u : ChatUsage)
      → l.file ≡ some u
      → u.date ≢ ""
      → u.last_seen ≡ ""
      → save_due h l t ≡ true
  unfolding save_due read_file
  unsigned_due l t u there dated no_anchor =
      rw there (ground (arith, eq_iff u.date "", eq_iff u.last_seen ""))

  unsigned_judged :
      (l : ChatLimiter) (t : Moment) (u : ChatUsage)
      → l.file ≡ some u
      → u.mac ≡ ""
      → u.last_seen ≡ ""
      → u.date ≢ ""
      → u.date ≡ h.format_date t.net_time
      → leb_ℤ (pos 600) u.used_seconds ≡ false
      → SameCounters (judge_file h l t).usage u
  unfolding judge_file read_file check_license_validity mac_valid rollback_detected
  unsigned_judged l t u there no_mac no_anchor dated today below =
      let has_date : (u.date =ₛ "") ≡ false = ground (arith, eq_iff u.date "") in
      let is_today : (u.date =ₛ h.format_date t.net_time) ≡ true =
        ground (arith, eq_iff u.date (h.format_date t.net_time)) in
      let unsigned : (u.mac =ₛ "") ≡ true = ground (arith, eq_iff u.mac "") in
      let unanchored : (u.last_seen =ₛ "") ≡ true = ground (arith, eq_iff u.last_seen "") in
      rw (there, has_date, is_today, unsigned, unanchored)
        ((judge-SameCounters t u.clock_tampered _ below).0)

  -- An edit of the usage file that also takes its signature and its anchor out is not noticed: a call of
  -- the same day that reads the file answers with whatever counters were written there, if fewer than
  -- 600 seconds are, and, if the file can be written, signs it with these counters.
  pub unsigned_file_counts :
      (l : ChatLimiter) (t written : Moment) (u : ChatUsage)
      (seconds transfers receive_transfers : ℤ)
      → ReadsFile h l t
      → l.file ≡ some (unsigned (stamp h written u) seconds transfers receive_transfers)
      → u.date ≢ ""
      → u.date ≡ h.format_date t.net_time
      → leb_ℤ (pos 600) seconds ≡ false
      → t.write_ok ≡ true
      → let edited = unsigned (stamp h written u) seconds transfers receive_transfers in
        let (after, usage) = load_usage_locked h l t in
        SameCounters usage edited
        × ((r : ChatUsage) × (after.file ≡ some r)
            × SameCounters r edited
            × (mac_valid h r t.machine_key ≡ true))
  unfolding reload
  unsigned_file_counts l t written u seconds transfers receive_transfers reads there dated today
        below writable =
      let edited = unsigned (stamp h written u) seconds transfers receive_transfers in
      let judged = unsigned_judged l t edited there refl refl dated today below in
      let kept = record ((judge_file h l t).usage) { last_seen = h.format_rfc3339 t.net_time } in
      rw (load_reads h l t reads) (
        rw (unsigned_due l t edited there dated refl) (
          judged,
          (
            stamp h t kept,
            saved_file h l t kept writable,
            judged,
            stamp-mac_valid t kept t.machine_key (inl refl),
          ),
        ))
