-- ===== src/Gpu/Op.antt =====
-- gpu/api.spec.hpp: the ops and the words that say none.
use xpute.Common.{ℕ}

abbrev pub none_word : ℕ
none_word = 4294967295

abbrev pub done_bit : ℕ
done_bit = 2147483648

abbrev pub surface_preferred : ℕ
surface_preferred = 255

abbrev pub binding_entry_words : ℕ
binding_entry_words = 6

abbrev pub resource_entry_words : ℕ
resource_entry_words = 5

abbrev pub op_buffer : ℕ
op_buffer = 1

abbrev pub op_texture : ℕ
op_texture = 2

abbrev pub op_view : ℕ
op_view = 3

abbrev pub op_sampler : ℕ
op_sampler = 4

abbrev pub op_shader_module : ℕ
op_shader_module = 5

abbrev pub op_bind_group_layout : ℕ
op_bind_group_layout = 6

abbrev pub op_pipeline_layout : ℕ
op_pipeline_layout = 7

abbrev pub op_bind_group : ℕ
op_bind_group = 8

abbrev pub op_render_pipeline : ℕ
op_render_pipeline = 9

abbrev pub op_compute_pipeline : ℕ
op_compute_pipeline = 10

abbrev pub op_query_set : ℕ
op_query_set = 11

abbrev pub op_destroy : ℕ
op_destroy = 12

abbrev pub op_write_buffer : ℕ
op_write_buffer = 13

abbrev pub op_write_buffer_at : ℕ
op_write_buffer_at = 14

abbrev pub op_write_texture : ℕ
op_write_texture = 15

abbrev pub op_write_texture_at : ℕ
op_write_texture_at = 16

abbrev pub op_copy_external_image : ℕ
op_copy_external_image = 17

abbrev pub op_encoder : ℕ
op_encoder = 18

abbrev pub op_copy_buffer_to_buffer : ℕ
op_copy_buffer_to_buffer = 19

abbrev pub op_copy_buffer_to_texture : ℕ
op_copy_buffer_to_texture = 20

abbrev pub op_copy_texture_to_buffer : ℕ
op_copy_texture_to_buffer = 21

abbrev pub op_copy_texture_to_texture : ℕ
op_copy_texture_to_texture = 22

abbrev pub op_clear_buffer : ℕ
op_clear_buffer = 23

abbrev pub op_resolve_query_set : ℕ
op_resolve_query_set = 24

abbrev pub op_render_pass : ℕ
op_render_pass = 25

abbrev pub op_compute_pass : ℕ
op_compute_pass = 26

abbrev pub op_set_pipeline : ℕ
op_set_pipeline = 27

abbrev pub op_set_bind_group : ℕ
op_set_bind_group = 28

abbrev pub op_set_vertex_buffer : ℕ
op_set_vertex_buffer = 29

abbrev pub op_set_index_buffer : ℕ
op_set_index_buffer = 30

abbrev pub op_set_viewport : ℕ
op_set_viewport = 31

abbrev pub op_set_scissor : ℕ
op_set_scissor = 32

abbrev pub op_set_blend_constant : ℕ
op_set_blend_constant = 33

abbrev pub op_set_stencil_reference : ℕ
op_set_stencil_reference = 34

abbrev pub op_draw : ℕ
op_draw = 35

abbrev pub op_draw_indexed : ℕ
op_draw_indexed = 36

abbrev pub op_draw_indirect : ℕ
op_draw_indirect = 37

abbrev pub op_draw_indexed_indirect : ℕ
op_draw_indexed_indirect = 38

abbrev pub op_dispatch : ℕ
op_dispatch = 39

abbrev pub op_dispatch_indirect : ℕ
op_dispatch_indirect = 40

abbrev pub op_end : ℕ
op_end = 41

abbrev pub op_submit : ℕ
op_submit = 42

abbrev pub op_map_async : ℕ
op_map_async = 43

abbrev pub op_queue_done : ℕ
op_queue_done = 44

abbrev pub op_configure : ℕ
op_configure = 45

abbrev pub op_resize : ℕ
op_resize = 46

abbrev pub op_current : ℕ
op_current = 47

abbrev pub op_device : ℕ
op_device = 48

abbrev pub buffer_usage_map_read : ℕ
buffer_usage_map_read = 1

abbrev pub buffer_usage_map_write : ℕ
buffer_usage_map_write = 2

abbrev pub buffer_usage_copy_src : ℕ
buffer_usage_copy_src = 4

abbrev pub buffer_usage_copy_dst : ℕ
buffer_usage_copy_dst = 8

abbrev pub buffer_usage_index : ℕ
buffer_usage_index = 16

abbrev pub buffer_usage_vertex : ℕ
buffer_usage_vertex = 32

abbrev pub buffer_usage_uniform : ℕ
buffer_usage_uniform = 64

abbrev pub buffer_usage_storage : ℕ
buffer_usage_storage = 128

abbrev pub buffer_usage_indirect : ℕ
buffer_usage_indirect = 256

abbrev pub buffer_usage_query_resolve : ℕ
buffer_usage_query_resolve = 512

abbrev pub texture_usage_copy_src : ℕ
texture_usage_copy_src = 1

abbrev pub texture_usage_copy_dst : ℕ
texture_usage_copy_dst = 2

abbrev pub texture_usage_texture_binding : ℕ
texture_usage_texture_binding = 4

abbrev pub texture_usage_storage_binding : ℕ
texture_usage_storage_binding = 8

abbrev pub texture_usage_render_attachment : ℕ
texture_usage_render_attachment = 16

abbrev pub shader_stage_vertex : ℕ
shader_stage_vertex = 1

abbrev pub shader_stage_fragment : ℕ
shader_stage_fragment = 2

abbrev pub shader_stage_compute : ℕ
shader_stage_compute = 4

abbrev pub color_write_red : ℕ
color_write_red = 1

abbrev pub color_write_green : ℕ
color_write_green = 2

abbrev pub color_write_blue : ℕ
color_write_blue = 4

abbrev pub color_write_alpha : ℕ
color_write_alpha = 8

abbrev pub color_write_all : ℕ
color_write_all = 15

abbrev pub status_ready : ℕ
status_ready = 1

abbrev pub status_lost : ℕ
status_lost = 2
