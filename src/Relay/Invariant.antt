-- ===== src/Relay/Invariant.antt =====
-- About the relays of transport.go: what has been delivered at any time.
use wirez.Prelude.{◌≡◌, refl, sym, ◌∙◌, false, Option, [], ◌++◌, append_assoc, append-nil, Bytes}
use wirez.Relay.{Way, Copy, moves, reads_nothing, Report, write_fails, read_fails, read_ends}
use wirez.Throw.{Error}

-- Of a relay that began as `z`: what it has written is what it has read, in order, up to the one
-- read that a failed write may have lost.
pub record IsFaithful (z x : Way) : Type 0 where
  pub copied : Bytes
  pub lost : Bytes
  pub read : z.unread ≡ copied ++ (lost ++ x.unread)
  pub written : x.sent ≡ z.sent ++ copied
  pub losing : x.done ≡ false → lost ≡ []
  pub ending : x.ending ≡ z.ending
  pub half_closes : x.half_closes ≡ z.half_closes

pub start-IsFaithful : (z : Way) → z.done ≡ false → IsFaithful z z
start-IsFaithful z h = record {
  copied = [];
  lost = [];
  read = refl;
  written = sym (append-nil z.sent);
  losing = λ e. refl;
  ending = refl;
  half_closes = refl;
}

pub Copy-IsFaithful : (z x y : Way) → Copy x y → IsFaithful z x → IsFaithful z y
Copy-IsFaithful z x _ (moves p rest going e l b) v =
    let none_lost = v.losing going in
    record {
      copied = v.copied ++ p;
      lost = [];
      read = v.read ∙ rw (none_lost, e) (sym (append_assoc v.copied p rest));
      written = rw v.written (append_assoc z.sent v.copied p);
      losing = λ h. refl;
      ending = v.ending;
      half_closes = v.half_closes;
    }
Copy-IsFaithful z x _ (reads_nothing n going e) v = record {
  copied = v.copied;
  lost = v.lost;
  read = v.read;
  written = v.written;
  losing = v.losing;
  ending = v.ending;
  half_closes = v.half_closes;
}

pub Report-IsFaithful :
    (z x y : Way) {r : Option Error} → Report x r y → IsFaithful z x → IsFaithful z y
Report-IsFaithful z x _ (write_fails p lost rest e going u l b) v =
    let none_lost = v.losing going in
    record {
      copied = v.copied ++ p;
      lost = lost;
      read = v.read ∙ rw (none_lost, u) (sym (append_assoc v.copied p (lost ++ rest)));
      written = rw v.written (append_assoc z.sent v.copied p);
      losing = λ h. absurd (cc);
      ending = v.ending;
      half_closes = v.half_closes;
    }
Report-IsFaithful z x _ (read_fails going u b e) v = record {
  copied = v.copied;
  lost = v.lost;
  read = v.read;
  written = v.written;
  losing = λ h. absurd (cc);
  ending = v.ending;
  half_closes = v.half_closes;
}
Report-IsFaithful z x _ (read_ends going u b e) v = record {
  copied = v.copied;
  lost = v.lost;
  read = v.read;
  written = v.written;
  losing = λ h. absurd (cc);
  ending = v.ending;
  half_closes = v.half_closes;
}
