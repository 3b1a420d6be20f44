-- ===== src/Soak/Pir/Hints.antt =====
-- The client's hint of soak/src/pir2.rs.
use shielded_ledger_hivemind.Common.{
  ℕ, ◌+◌, ◌*◌, ◌≤◌, ◌<◌, ◌≡◌, refl, arith, List, [], length, get_or, some, All,
}
use shielded_ledger_hivemind.Adapter.Legacy.Messages.{Bytes}
use shielded_ledger_hivemind.Soak.Pir.{lwe_n, Geometry, for_shard_size}
use shielded_ledger_hivemind.Soak.Pir.Server.{Shard, shard_new}
use shielded_ledger_hivemind.Soak.Pir.Client.{client_new}
use shielded_ledger_hivemind.Soak.Pir.Sums.{SameWord}
use shielded_ledger_hivemind.Soak.Pir.Shards.{IsRecord, concat, product, shard_new-Holds}
use shielded_ledger_hivemind.Soak.Pir.Appended.{append_all, absorb_all, append_all-Grown, same_hint}
use shielded_ledger_hivemind.Soak.Pir.Retrieve.{moved_hint}
use shielded_ledger_hivemind.Soak.Pir.Sized.{for_shard_size-Fits}

-- With the geometry of its size a shard takes as many records as its size. A client that is streamed them
-- has its hint, each word of which is that of the product of the database, the records one after another,
-- with A.
pub absorb_all-append_all :
    (sha256 : Bytes → Bytes) (shard_size index : ℕ) (g : Geometry) (records : List Bytes) (r j : ℕ)
    → for_shard_size shard_size ≡ some g
    → All IsRecord records
    → length records ≤ shard_size
    → r < g.m_rows
    → j < lwe_n
    → (t : Shard) × (append_all sha256 (shard_new index g) records ≡ some t)
      × ((absorb_all sha256 (client_new index g) records).h ≡ t.h)
      × SameWord (get_or t.h (r * lwe_n + j) 0) (product sha256 g index (concat records) r j)
unfolding shard_new client_new
absorb_all-append_all sha256 shard_size index g records r j made len room lr lj =
    let (f, sized) = for_shard_size-Fits shard_size g made in
    let (t, done, grown) =
      append_all-Grown sha256 records [] (shard_new index g) (shard_new-Holds sha256 index g f) len
        (omega arith) in
    (
      t,
      done,
      same_hint sha256 records (client_new index g) (shard_new index g) t refl refl refl refl done,
      moved_hint sha256 t.h (concat records) t.geometry g t.index index grown.geometry grown.index
          grown.holds.hint r j lr lj,
    )
