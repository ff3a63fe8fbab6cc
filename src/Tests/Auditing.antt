-- ===== src/Tests/Auditing.antt =====
-- The audit at concrete inputs.
use metrify.Base.{
  Bytes, true, none, some, [], ◌∷◌, ◌++◌, inr, ◌≡◌, ◌↔◌, refl, codes, returned, panicked,
}
use metrify.Audit.{
  Event, file_receiver, new_publisher, new_file_receiver, enabled, publish, receive_file,
}
use metrify.Audit.Panics.{publish-nil_file_receiver}
use metrify.Audit.Publishing.{Appended, receive_file-Appended}
use metrify.Tests.Example.{Files, example}

abbrev event : Event
event = record { ts = 7; metrics = "hits" ∷ []; ip_address = codes "10.0.0.1" }

abbrev files : Files
files = []

publish-nil_file_receiver_example :
    (enabled (new_publisher (file_receiver (new_file_receiver "") ∷ [])) ≡ true)
    × ((publish example (new_publisher (file_receiver (new_file_receiver "") ∷ [])) event files).0
        ≡ panicked)
publish-nil_file_receiver_example =
    publish-nil_file_receiver example [] event (7 ∷ codes "10.0.0.1") files files refl refl

receive_file-Appended_example :
    (receive_file example (some "audit") event files
      ≡ (returned none, ("audit", 7 ∷ codes "10.0.0.1" ++ b'\n' ∷ []) ∷ []))
    ↔ ((b : Bytes) × (example.marshal_event 7 ("hits" ∷ []) (codes "10.0.0.1") ≡ inr b)
        × Appended example "audit"
            (b ++ b'\n' ∷ [])
            files
            (("audit", 7 ∷ codes "10.0.0.1" ++ b'\n' ∷ []) ∷ []))
receive_file-Appended_example =
    receive_file-Appended example "audit" event files
      (("audit", 7 ∷ codes "10.0.0.1" ++ b'\n' ∷ []) ∷ [])
