-- ===== src/Tests/Display.antt =====
-- Listings and sizes, run and checked (cli/main.py and utils/utils.py).
use mcu.Base.{◌≡◌, refl, none, ok}
use mcu.Data.Search.{search}
use mcu.Index.Repository.{done, yields}
use mcu.Index.Service.{reindex_kernels}
use mcu.Cli.Display.{format_size, mod_time_handle}
use mcu.Cli.Display.Size.{IsPrinted, format_size_lem}
use mcu.Cli.Display.Laws.{IsListed, listing_after_index}
use mcu.Tests.Order.{newest_first, newest_first-IsOrderBy}
use mcu.Tests.Samples.{root, clock, kernel_of, no_tables, anything}

sizes_test :
    (format_size 1023 ≡ "1023 B")
    × (format_size 1280 ≡ "1.2 KB")
    × (format_size 1048575 ≡ "1024.0 KB")
    × (format_size 3435973837 ≡ "3.2 GB")
unfolding format_size
sizes_test = (refl, refl, refl, refl)

format_size_lem_example : IsPrinted 1536
format_size_lem_example = format_size_lem 1536

listing_after_index_example :
    IsListed
      (λ t. ok "today")
      (search newest_first none anything
        (reindex_kernels
          (λ k. none)
          clock
          root
          (yields (kernel_of "h1" 30) (yields (kernel_of "h2" 10) done))
          0
          no_tables).1)
unfolding mod_time_handle
listing_after_index_example =
    listing_after_index (λ k. none) clock root
      (yields (kernel_of "h1" 30) (yields (kernel_of "h2" 10) done)) no_tables newest_first anything
      (λ t. ok "today") refl tt newest_first-IsOrderBy
