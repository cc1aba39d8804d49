-- ===== src/Effects/Limits.antt =====
-- What a capacity update leaves, in figures: treasury/treasury-capacity-update.handler.ts.
use program_capacity_invoice.Base.{◌≡◌, refl, ◌∙◌, none, some, [], ◌∷◌, ◌++◌}
use program_capacity_invoice.Base.Int.{ℤ, ◌≤ℤ◌}
use program_capacity_invoice.Base.Rows.{find, replace}
use program_capacity_invoice.Errors.{ok, big_int}
use program_capacity_invoice.Store.{Program, Db, Env}
use program_capacity_invoice.Programs.Repository as Programs
use program_capacity_invoice.Programs.Uniqueness.{UniquePrograms}
use program_capacity_invoice.Treasury.Events.{
  Platform, TreasuryCapacityUpdateEvent, TreasuryMessageMeta, TreasuryHandlerResultStatus, applied,
  stale,
}
use program_capacity_invoice.Treasury.Messages.{seen_before}
use program_capacity_invoice.Treasury.CapacityUpdate.{handle}
use program_capacity_invoice.Effects.Recording.{SameBooks}
use program_capacity_invoice.Effects.CapacityUpdate as Capacity
use program_capacity_invoice.Effects.CapacityUpdate.{
  capacity_update-Outcome, update_input, creation_input,
}
use program_capacity_invoice.Effects.Versions.{find_by_reference}
use program_capacity_invoice.Effects.Declared.{
  Starts, created_from-Starts, Declares, IsNewer, fresh-IsNewer, updated-Declares, Updates-row,
  Updates-reservations,
}

module _ (platform : Platform) (env : Env) (event : TreasuryCapacityUpdateEvent) where
  -- What a capacity update has done, by the result that it returns.
  pub data Takes (meta : TreasuryMessageMeta) (db : Db) (status : TreasuryHandlerResultStatus)
      (after : Db) : Type 0 where
    seen :
        seen_before event.message_id meta db ≡ ok (some status, db)
        → after ≡ db
        → Takes meta db status after
    outdated :
        (p : Program) (version current : ℤ)
        → find (Programs.has_external_ref event.program_external_ref) db.programs ≡ some p
        → big_int event.treasury_version ≡ ok version
        → p.treasury_version ≡ some current
        → version ≤ℤ current
        → status ≡ stale
        → SameBooks db after
        → Takes meta db status after
    created :
        (limit version : ℤ) (q : Program)
        → find (Programs.has_external_ref event.program_external_ref) db.programs ≡ none
        → big_int event.payload.total_limit_minor ≡ ok limit
        → big_int event.treasury_version ≡ ok version
        → status ≡ applied
        → Starts event.program_external_ref event.payload.currency limit version q
        → after.programs ≡ db.programs ++ q ∷ []
        → after.invoice_reservations ≡ db.invoice_reservations
        → Takes meta db status after
    updated :
        (p : Program) (limit version : ℤ) (q : Program)
        → find (Programs.has_external_ref event.program_external_ref) db.programs ≡ some p
        → big_int event.payload.total_limit_minor ≡ ok limit
        → big_int event.treasury_version ≡ ok version
        → IsNewer version p
        → status ≡ applied
        → Declares p limit p.reserved_amount_minor event.payload.currency version q
        → after.programs ≡ replace (Programs.has_id p.id) q db.programs
        → after.invoice_reservations ≡ db.invoice_reservations
        → Takes meta db status after

  -- Where no two programs share an id, a capacity update that returns was seen before, and leaves the
  -- database as it was; or is not newer than its program, and leaves all but the record of messages;
  -- or adds a program that had no row, ACTIVE, with the event's limit and version, and nothing
  -- reserved; or is newer, and gives the program's row the event's limit, version and currency, with
  -- the amount reserved as before and the status that it implies. A currency is padded to the three
  -- characters of its column. No reservation changes.
  pub capacity_update-Takes :
      (meta : TreasuryMessageMeta) (db : Db) (status : TreasuryHandlerResultStatus) (after : Db)
      → UniquePrograms db
      → handle platform env event meta db ≡ ok (status, after)
      → Takes meta db status after
  capacity_update-Takes meta db status after unique h =
      elim (capacity_update-Outcome platform env event meta db status after h) [
        | Capacity.seen found same ↦ seen found same
        | Capacity.outdated p version current found is_version has older is same ↦
            outdated p version current found is_version has older is same
        | Capacity.created limit exponent version date absent is_limit is_version is programs
              reservations ↦
            created limit version _ absent is_limit is_version is
              (created_from-Starts (env.gen_random_uuid db.uuids) env.now
                (creation_input platform env event limit exponent version date))
              programs reservations
        | Capacity.updated p limit exponent version date row mid found is_limit is_version newer is
              done programs reservations ↦
            let input = update_input platform env event limit exponent version date in
            updated p limit version (Programs.capacity_updated_by input env.now p) found is_limit
              is_version (fresh-IsNewer version p newer) is (updated-Declares input env.now p)
              (programs
                ∙ Updates-row p (Programs.capacity_updated_by input env.now) db row mid (λ x. refl)
                    (find_by_reference db event.program_external_ref p unique found) done)
              (reservations
                ∙ Updates-reservations p.id (Programs.capacity_updated_by input env.now) db row mid
                    done)
      ]
