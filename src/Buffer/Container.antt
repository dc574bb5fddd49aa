-- ===== src/Buffer/Container.antt =====
-- What `template <class type> class buffer` of buffer.h asks of its container and passes on to it, the
-- three containers of the library, and what they promise.
pub mod Queue
pub mod Queues
mod Tests
use simple_network.Base.{ℕ, true, Bytes, Run, ok, Option, some}
use simple_network.Buffer.Circle.{Circle}
use simple_network.Buffer.Circle
use simple_network.Buffer.Array.{Array}
use simple_network.Buffer.Array
use simple_network.Buffer.Bip.{Bip}
use simple_network.Buffer.Bip

-- The functions that `buffer` forwards. The first argument of those that may call themselves is fuel.
pub record Container (C : Type 0) : Type 0 where
  pub make : ℕ → ℕ → C
  pub reset : C → C
  pub get_start : C → Option ℕ
  pub get_end : C → Option ℕ
  pub get_count : C → ℕ
  pub get_space : ℕ → C → Run (ℕ × C)
  pub get_continguious_count : C → ℕ
  pub get_continguious_space : ℕ → C → Run (ℕ × C)
  pub written : C → ℕ → C
  pub remove : C → ℕ → Run C
  pub remove_from_back : C → ℕ → Run C
  pub read : ℕ → C → ℕ → ℕ → Run (Bytes × C)
  pub write : ℕ → C → Bytes → ℕ → Run C
  pub write_from : ℕ → C → C → ℕ → ℕ → Run C

abbrev pub circle : Container Circle
circle = record {
  make = Circle.make;
  reset = Circle.reset;
  get_start = λ c. some (Circle.get_start c);
  get_end = λ c. some (Circle.get_end c);
  get_count = Circle.get_count;
  get_space = Circle.get_space;
  get_continguious_count = Circle.get_continguious_count;
  get_continguious_space = Circle.get_continguious_space;
  written = Circle.written;
  remove = λ c n. ok (Circle.remove c n);
  remove_from_back = λ c n. ok (Circle.remove_from_back c n);
  read = λ fuel c count offset. Circle.read fuel c count offset true;
  write = Circle.write;
  write_from = Circle.write_circle;
}

abbrev pub array : Container Array
array = record {
  make = Array.make;
  reset = Array.reset;
  get_start = λ c. some (Array.get_start c);
  get_end = λ c. some (Array.get_end c);
  get_count = Array.get_count;
  get_space = Array.get_space;
  get_continguious_count = Array.get_continguious_count;
  get_continguious_space = λ fuel c. Array.get_continguious_space c;
  written = Array.written;
  remove = Array.remove;
  remove_from_back = Array.remove_from_back;
  read = λ fuel c count offset. Array.read c count offset;
  write = Array.write;
  write_from = Array.write_array;
}

abbrev pub bip : Container Bip
bip = record {
  make = Bip.make;
  reset = Bip.reset;
  get_start = Bip.get_start;
  get_end = λ c. some (Bip.get_end c);
  get_count = Bip.get_count;
  get_space = Bip.get_space;
  get_continguious_count = Bip.get_continguious_count;
  get_continguious_space = Bip.get_continguious_space;
  written = Bip.written;
  remove = Bip.remove;
  remove_from_back = λ c n. ok (Bip.remove_from_back c n);
  read = λ fuel c count offset. Bip.read c count offset;
  write = Bip.write;
  write_from = Bip.write_bip;
}

-- `class buffer`, which keeps its container in `type_` and passes each call on.
abbrev pub buffer : {C : Type 0} → Container C → Container C
buffer type_ = record {
  make = type_.make;
  reset = type_.reset;
  get_start = type_.get_start;
  get_end = type_.get_end;
  get_count = type_.get_count;
  get_space = type_.get_space;
  get_continguious_count = type_.get_continguious_count;
  get_continguious_space = type_.get_continguious_space;
  written = type_.written;
  remove = type_.remove;
  remove_from_back = type_.remove_from_back;
  read = type_.read;
  write = type_.write;
  write_from = type_.write_from;
}
