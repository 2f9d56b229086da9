-- ===== src/Jpeg/Output/Restarts.antt =====
-- The one restart interval of a file's scans.
use jpg_spinner.Jpeg.Bytes.{Bytes, byte_at}
use jpg_spinner.Jpeg.Inventory.{JpegMarkerInventory, JpegMarkerReference}
use jpg_spinner.Jpeg.Outcome.{success}
use jpg_spinner.Jpeg.Output.{restart_interval_from, constant_restart_interval}
use jpg_spinner.Prelude.{
  ℕ, ◌+◌, ◌*◌, ◌≡◌, Bool, true, false, ◌||◌, none, some, List, [], ◌∷◌, ◌++◌, get_elem?, ◌==◌,
  if◌then◌else◌, Bool-cases, ◌⊎◌, inl, inr, arith,
}

-- The interval that a DRI marker defines.
abbrev pub defined_interval : Bytes → JpegMarkerReference → ℕ
defined_interval bytes marker = elim (get_elem? bytes marker.payload_range.offset_bytes) [
  | none ↦ 0
  | some high ↦ elim (get_elem? bytes (marker.payload_range.offset_bytes + 1)) [
    | none ↦ 0
    | some low ↦ high * 256 + low
  ]
]

-- The interval behind some markers: that of the last definition, or the one in force in front of them.
abbrev pub interval_behind : Bytes → List JpegMarkerReference → ℕ → ℕ
interval_behind bytes [] interval = interval
interval_behind bytes (marker ∷ markers) interval =
    interval_behind bytes markers
      (if marker.marker_code == 0xDD then defined_interval bytes marker else interval)

-- One definition that was accepted: it keeps the interval once a scan has started, and the loop goes on behind it.
module _ (bytes : Bytes) (marker : JpegMarkerReference) (markers : List JpegMarkerReference)
    (scan_started : Bool) (interval w : ℕ)
    (h : restart_interval_from bytes (marker ∷ markers) scan_started interval
      ≡ success (some w)) where
  head_else :
      (marker.marker_code == 0xDD) ≡ false
      → restart_interval_from bytes markers (scan_started || marker.marker_code == 0xDA) interval
        ≡ success (some w)
  unfolding restart_interval_from
  head_else e = ground arith

  head_defines :
      (marker.marker_code == 0xDD) ≡ true
      → (restart_interval_from bytes markers
            (scan_started || marker.marker_code == 0xDA)
            (defined_interval bytes marker)
          ≡ success (some w))
        × ((scan_started ≡ false) ⊎ (defined_interval bytes marker ≡ interval))
  unfolding restart_interval_from byte_at
  head_defines e = ground arith

-- Behind the start of a scan the interval does not change.
started_keeps :
    (bytes : Bytes) (markers : List JpegMarkerReference) (interval w : ℕ)
    → restart_interval_from bytes markers true interval ≡ success (some w)
    → interval ≡ w
unfolding restart_interval_from
started_keeps bytes [] interval w h = ground arith
started_keeps bytes (m ∷ markers) interval w h = elim (Bool-cases (m.marker_code == 0xDD)) [
  | inl e ↦
      let d = head_defines bytes m markers true interval w h e in
      let k = started_keeps bytes markers (defined_interval bytes m) w d.0 in
      let same = d.1 in ground arith
  | inr e ↦ started_keeps bytes markers interval w (head_else bytes m markers true interval w h e)
]

scan_interval :
    (bytes : Bytes) (before behind : List JpegMarkerReference) (scan : JpegMarkerReference)
    (scan_started : Bool) (interval w : ℕ)
    → scan.marker_code ≡ 0xDA
    → restart_interval_from bytes (before ++ (scan ∷ behind)) scan_started interval
      ≡ success (some w)
    → interval_behind bytes before interval ≡ w
scan_interval bytes [] behind scan scan_started interval w s h =
    let started : (scan_started || scan.marker_code == 0xDA) ≡ true = ground arith in
    let go = head_else bytes scan behind scan_started interval w h (ground arith) in
    started_keeps bytes behind interval w (rw started at go)
scan_interval bytes (m ∷ before) behind scan scan_started interval w s h =
    elim (Bool-cases (m.marker_code == 0xDD)) [
      | inl e ↦ rw e (
          scan_interval bytes before behind scan (scan_started || m.marker_code == 0xDA)
            (defined_interval bytes m) w s
            (head_defines bytes m (before ++ (scan ∷ behind)) scan_started interval w h e).0)
      | inr e ↦ rw e (
          scan_interval bytes before behind scan (scan_started || m.marker_code == 0xDA) interval w
            s (head_else bytes m (before ++ (scan ∷ behind)) scan_started interval w h e))
    ]

-- When the interval of a file is found to be constant, it is the one that the definitions in front of each scan
-- leave in force: the last one of them, or none if there is no definition there.
pub constant_restart_interval_scans :
    (bytes : Bytes) (inventory : JpegMarkerInventory) (w : ℕ)
    (before behind : List JpegMarkerReference) (scan : JpegMarkerReference)
    → constant_restart_interval bytes inventory ≡ success (some w)
    → inventory.markers ≡ before ++ (scan ∷ behind)
    → scan.marker_code ≡ 0xDA
    → interval_behind bytes before 0 ≡ w
unfolding constant_restart_interval
constant_restart_interval_scans bytes inventory w before behind scan h e s =
    scan_interval bytes before behind scan false 0 w s (rw e at h)
