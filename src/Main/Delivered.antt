-- ===== src/Main/Delivered.antt =====
-- What the database's queue gets of an inverter's messages.
use fronius_bridge.Prelude.{
  ◌≡◌, refl, ap, ◌∙◌, String, true, false, List, [], ◌∷◌, if◌then◌else◌, if-split,
}
use fronius_bridge.Pg.Queue.{enqueue_all}
use fronius_bridge.Pg.Client.{Event, inverter_device, inverter_values}
use fronius_bridge.Readers.Json.{Document}
use fronius_bridge.Readers.Inverter.Poll.{
  Message, availability, device_message, values_message, events_message, shutdown_request,
  device_retry,
}
use fronius_bridge.Main.{Settings, Consumers, deliver, deliver_all}

-- The devices and the values among the messages, under the inverter's name.
abbrev pub events_of : {F : Type 0} → (name : String) → List (Message F) → List (Event F)
events_of name [] = []
events_of name (availability s ∷ ms) = events_of name ms
events_of name (device_message doc dev ∷ ms) =
    record { device_name = name; payload = inverter_device dev } ∷ events_of name ms
events_of name (values_message doc v ∷ ms) =
    record { device_name = name; payload = inverter_values v } ∷ events_of name ms
events_of name (events_message doc ev ∷ ms) = events_of name ms
events_of name (shutdown_request r ∷ ms) = events_of name ms
events_of name (device_retry ∷ ms) = events_of name ms

module _ {F : Type 0} (settings : Settings) (dump : Document F → String) (name : String) where
  chosen :
      settings.has_postgres ≡ true
      → (x y : Consumers F) → (if settings.has_postgres then x else y).queue ≡ x.queue
  chosen t x y = ap (λ b. (if b then x else y).queue) t

  skipped :
      settings.has_postgres ≡ false
      → (x y : Consumers F) → (if settings.has_postgres then x else y).queue ≡ y.queue
  skipped f x y = ap (λ b. (if b then x else y).queue) f

  with_database :
      settings.has_postgres ≡ true
      → (ms : List (Message F)) (s : Consumers F)
      → (deliver_all settings dump name ms s).queue
        ≡ enqueue_all settings.threshold settings.pg_queue_size (events_of name ms) s.queue
  unfolding deliver_all deliver enqueue_all
  with_database t [] s = refl
  with_database t (availability x ∷ ms) s = with_database t ms _
  with_database t (device_message doc dev ∷ ms) s =
      with_database t ms _
      ∙ ap (enqueue_all settings.threshold settings.pg_queue_size (events_of name ms))
          (chosen t _ _)
  with_database t (values_message doc v ∷ ms) s =
      with_database t ms _
      ∙ ap (enqueue_all settings.threshold settings.pg_queue_size (events_of name ms))
          (chosen t _ _)
  with_database t (events_message doc ev ∷ ms) s = with_database t ms _
  with_database t (shutdown_request r ∷ ms) s = with_database t ms _
  with_database t (device_retry ∷ ms) s = with_database t ms _

  without_database :
      settings.has_postgres ≡ false
      → (ms : List (Message F)) (s : Consumers F)
      → (deliver_all settings dump name ms s).queue ≡ s.queue
  unfolding deliver_all deliver
  without_database f [] s = refl
  without_database f (availability x ∷ ms) s = without_database f ms _
  without_database f (device_message doc dev ∷ ms) s = without_database f ms _ ∙ skipped f _ _
  without_database f (values_message doc v ∷ ms) s = without_database f ms _ ∙ skipped f _ _
  without_database f (events_message doc ev ∷ ms) s = without_database f ms _
  without_database f (shutdown_request r ∷ ms) s = without_database f ms _
  without_database f (device_retry ∷ ms) s = without_database f ms _

  -- With a database, its queue takes the devices and the values of an inverter's messages in their order, and
  -- nothing else; without one it stays as it is.
  pub deliver_all-queue :
      (ms : List (Message F)) (s : Consumers F)
      → (deliver_all settings dump name ms s).queue ≡ (
          if settings.has_postgres
          then enqueue_all settings.threshold settings.pg_queue_size (events_of name ms) s.queue
          else s.queue)
  deliver_all-queue ms s =
      if-split (λ q. (deliver_all settings dump name ms s).queue ≡ q) settings.has_postgres _ _
        (λ t. with_database t ms s) (λ f. without_database f ms s)
