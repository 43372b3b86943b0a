-- ===== src/Common/Tests.antt =====
-- Runs of the functions of common/util.go.
use data_collector.Base.{◌≡◌, join, [], ◌∷◌, ok, err, index_out_of_range, codes, arith, Text, All}
use data_collector.Common.Goroutine.{go_id, go_id-decimal}
use data_collector.Common.Filter.{generate_bpf_v2, in_clause, out_clause}
use data_collector.Common.Filter.Laws.{generate_bpf_v2-map, generate_bpf_v2_no_colon, IsEndpoint}

abbrev server : Text × Text
server = (codes "a", codes "8")

server-IsEndpoint : All IsEndpoint (server ∷ [])
server-IsEndpoint = ((omega arith, tt), tt)

generate_bpf_v2-map_example :
    generate_bpf_v2 (codes "a:8" ∷ [])
    ≡ ok (codes "(dst host a and dst port 8) or (src host a and src port 8)")
unfolding join in_clause out_clause
generate_bpf_v2-map_example = generate_bpf_v2-map (server ∷ []) server-IsEndpoint

generate_bpf_v2_no_colon_example :
    generate_bpf_v2 (codes "a:8" ∷ codes "b" ∷ []) ≡ err index_out_of_range
generate_bpf_v2_no_colon_example =
    generate_bpf_v2_no_colon (server ∷ []) (codes "b") [] server-IsEndpoint (omega arith, tt)

go_id-decimal_example : go_id (codes "goroutine 18 [running]:") ≡ ok 18
go_id-decimal_example = go_id-decimal 18 (codes "[running]:") (omega arith)
