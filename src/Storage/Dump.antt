-- ===== src/Storage/Dump.antt =====
-- Dumping the storage to its file and restoring it from there.
use metrify.Base.{
  ℕ, String, Bytes, none, ◌≡◌, ◌≢◌, ap, refl, sym, ◌∙◌, inl, inr, returned, panicked, arith,
  Sum-cases, List,
}
use metrify.Base.GoMap.{GoMap, nil, made, GoMap-cases}
use metrify.External.{External, Dto}
use metrify.External.Laws.{SameMap, JsonLaws, FileLaws}
use metrify.Storage.{
  Machine, get_counter, get_gauge, update_counter, read_from_file, flush_to_file, unmarshal_json,
}
use metrify.Storage.Updates.{IsLive, update_counter-panicked_iff}

made_of_SameMap :
    {V : Type 0} (a b : GoMap V) {l : List (String × V)}
    → SameMap a b
    → a ≡ made l
    → (l' : List (String × V)) × (b ≡ made l')
made_of_SameMap a b s e = elim (GoMap-cases b) [
  | inl missing ↦ absurd (cc (s.made_if missing, e))
  | inr found ↦ found
]

module _ {F W : Type 0} (x : External F W) where
  -- A dump that succeeds has encoded the maps and written their text.
  flush_to_file-inv :
      (m t : Machine F W)
      → flush_to_file x m ≡ (returned none, t)
      → (text : Bytes) × (x.marshal_dto (record { gauges = m.gauges; counters = m.counters })
          ≡ inr text)
        × (x.write_file m.filepath (x.indent text) m.world ≡ (none, t.world))
        × (t.ms ≡ m.ms)
  unfolding flush_to_file
  flush_to_file-inv m t h =
      elim (Sum-cases (x.marshal_dto (record { gauges = m.gauges; counters = m.counters }))) [
        | inl (e, failed) ↦ absurd (cc (rw (failed, flush_to_file) at h))
        | inr (text, ok) ↦
            let h' = rw (ok, flush_to_file) at h in (text, ok, ground arith, ground arith)
      ]

  -- Dumping changes no metric, whether it succeeds or not.
  pub flush_to_file-keeps :
      (m : Machine F W) → ((flush_to_file x m).0 ≢ panicked) × ((flush_to_file x m).1.ms ≡ m.ms)
  unfolding flush_to_file
  flush_to_file-keeps m =
      elim (Sum-cases (x.marshal_dto (record { gauges = m.gauges; counters = m.counters }))) [
        | inl (e, failed) ↦ rw (failed, flush_to_file) ((λ p. cc), refl)
        | inr (text, done) ↦ rw (done, flush_to_file) ((λ p. cc), refl)
      ]

  read_from_file-decoded :
      (path : String) (m : Machine F W) (text : Bytes)
      → x.read_file path m.world ≡ inr text
      → x.check_valid text ≡ none
      → read_from_file x path m ≡ unmarshal_json x text m
  unfolding read_from_file
  read_from_file-decoded path m text h v = ground arith

  -- After a file is read that is valid JSON and has no counters, whatever its decoding reports,
  -- an update of a counter panics.
  restore_without_counters :
      (path : String) (m : Machine F W) (text : Bytes) (name : String) (delta : ℕ)
      → x.read_file path m.world ≡ inr text
      → x.check_valid text ≡ none
      → (x.unmarshal_dto text).0.counters ≡ nil
      → (update_counter x name delta (read_from_file x path m).1).0 ≡ panicked
  restore_without_counters path m text name delta h v n =
      (update_counter-panicked_iff x name delta _).1
        (rw (read_from_file-decoded path m text h v) (unfold unmarshal_json in n))

  -- If JSON texts decode to equal values, and a file reads back as it was written: restoring the
  -- file into another machine, such as a new storage after a restart, brings back every gauge and
  -- every counter of a storage that was dumped with no error, with no error itself; and a storage
  -- that could be written can be written again. Dumping changes no metric.
  pub restore-dump :
      (laws : JsonLaws x.json) (files : FileLaws x.system) (m t m' : Machine F W)
      → flush_to_file x m ≡ (returned none, t)
      → m'.world ≡ t.world
      → ((read_from_file x m.filepath m').0 ≡ returned none)
        × ((key : String) → get_gauge x key (read_from_file x m.filepath m').1 ≡ get_gauge x key m)
        × ((key : String)
            → get_counter x key (read_from_file x m.filepath m').1 ≡ get_counter x key m)
        × (IsLive m.ms → IsLive (read_from_file x m.filepath m').1.ms)
        × (t.ms ≡ m.ms)
  restore-dump laws files m t m' h w =
      let (text, encoded, written, same) = flush_to_file-inv m t h in
      let dto : Dto F = record { gauges = m.gauges; counters = m.counters } in
      let found : x.read_file m.filepath m'.world ≡ inr (x.indent text) =
        ap (x.read_file m.filepath) w ∙ files.read_back _ _ _ _ written in
      let read =
        read_from_file-decoded m.filepath m' (x.indent text) found
          (laws.valid_text dto text encoded) in
      let gauges = laws.same_gauges dto text encoded in
      let counters = laws.same_counters dto text encoded in
      rw read (
        unfold unmarshal_json get_gauge get_counter in
        (
          ap returned (laws.no_error dto text encoded),
          (λ key. sym (gauges.entries key)),
          (λ key. sym (counters.entries key)),
          (λ l.
              let (g, g_made) = made_of_SameMap _ _ gauges l.gauges_made in
              let (c, c_made) = made_of_SameMap _ _ counters l.counters_made in
              record {
                gauge_map = g;
                counter_map = c;
                gauges_made = g_made;
                counters_made = c_made;
              }),
          same,
        ))
