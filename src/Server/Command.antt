-- ===== src/Server/Command.antt =====
-- The command codes: the enum of gettextpo-helper/gtpo/stupids-client.h.
use stupid_ids.Base.{ℕ}

abbrev pub exit : ℕ
exit = 1

abbrev pub get_min_id_array : ℕ
get_min_id_array = 2

abbrev pub get_first_id : ℕ
get_first_id = 3

abbrev pub get_first_id_multi : ℕ
get_first_id_multi = 4

abbrev pub get_min_ids : ℕ
get_min_ids = 5

abbrev pub involved_by_min_ids : ℕ
involved_by_min_ids = 6
